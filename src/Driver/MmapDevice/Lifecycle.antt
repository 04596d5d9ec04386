-- ===== src/Driver/MmapDevice/Lifecycle.antt =====
-- Loading and unloading the mmap driver.
use embedded_linux_bsp.Common.{ℕ, ◌≡◌, refl, ap, ◌∙◌, ◌⊎◌, inl, inr, Option-cases, ℤ, pos}
use embedded_linux_bsp.Common.World.{
  Result, Result-cases, ok, err, pure, ◌>>=◌, attempt, ask, hold, give_back,
}
use embedded_linux_bsp.Common.Ledger.{Ledger, acquire, release, release-acquire}
use embedded_linux_bsp.Driver.User.{enomem}
use embedded_linux_bsp.Driver.MmapDevice.{
  State, Object, page, miscdevice, object_resource, Kernel, Session, register, address_page,
  my_init, my_exit,
}

-- How the loading ends: with an error of its own or of the registration, nothing is held that was not held
-- before; with 0, `my_exit` gives all of it back.
pub record Ended (k : Kernel) (l : Ledger Object) (run : Result (State × ℤ) × Session)
    : Type 0 where
  pub st : State
  pub ret : ℤ
  pub returned : run.0 ≡ ok (st, ret)
  pub undone :
      (((ret ≡ enomem) ⊎ ((t : ℕ) × (k.misc_register t ≡ err ret))) × (run.1.ledger ≡ l))
      ⊎ ((ret ≡ pos 0) × ((my_exit st run.1).1.ledger ≡ l))

module _ (k : Kernel) where
  register-Ended :
      (pfn addr : ℕ) (l : Ledger Object) (w : Session)
      → w.ledger ≡ acquire (page pfn) l
      → Ended k l (register k pfn addr w)
  unfolding register my_exit pure ◌>>=◌ attempt ask hold give_back
  register-Ended pfn addr l w e = elim (Result-cases (k.misc_register w.tick)) [
    | inl (x, q) ↦
        rw (q, register, ◌>>=◌, attempt)
          (record {
            st = _;
            ret = x;
            returned = refl;
            undone =
                inl (inr (w.tick, q), ap (release (page pfn)) e ∙ release-acquire (page pfn) l);
          })
    | inr (_, q) ↦
        rw (q, register, ◌>>=◌, attempt)
          (record {
            st = _;
            ret = pos 0;
            returned = refl;
            undone = inr (
              refl,
              ap (release (page pfn)) (release-acquire miscdevice _ ∙ e)
                  ∙ release-acquire (page pfn) l,
            );
          })
  ]

  address_page-Ended :
      (pfn : ℕ) (l : Ledger Object) (w : Session)
      → w.ledger ≡ acquire (page pfn) l
      → Ended k l (address_page k pfn w)
  unfolding address_page pure ◌>>=◌ give_back
  address_page-Ended pfn l w e = elim (Option-cases (k.page_address pfn)) [
    | inl q ↦
        rw (q, address_page)
          (record {
            st = _;
            ret = _;
            returned = refl;
            undone = inl (inl refl, ap (release (page pfn)) e ∙ release-acquire (page pfn) l);
          })
    | inr (addr, q) ↦ rw (q, address_page) (register-Ended pfn addr l w e)
  ]

  -- Whatever the kernel answers, loading the driver returns; and it either returns -ENOMEM or the error of the
  -- registration, and holds what it held before, or returns 0, and unloading it at once gives the page and the
  -- device back.
  pub my_init-Ended : (w : Session) → Ended k w.ledger (my_init k w)
  unfolding my_init pure ◌>>=◌ attempt ask hold
  my_init-Ended w = elim (Result-cases (k.alloc_page w.tick)) [
    | inl (x, q) ↦
        rw (q, my_init, ◌>>=◌, attempt)
          (record { st = _; ret = _; returned = refl; undone = inl (inl refl, refl) })
    | inr (pfn, q) ↦ rw (q, my_init, ◌>>=◌, attempt) (address_page-Ended pfn w.ledger _ refl)
  ]
