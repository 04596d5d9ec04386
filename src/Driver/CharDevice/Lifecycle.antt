-- ===== src/Driver/CharDevice/Lifecycle.antt =====
-- Loading and unloading the character device.
use embedded_linux_bsp.Common.{◌≡◌, refl, ◌∙◌, ap, ◌⊎◌, inl, inr, Bool, true, false, ℤ, ◌+◌}
use embedded_linux_bsp.Common.World.{
  Result-cases, ok, err, pure, ◌>>=◌, attempt, ask, hold, give_back, or_undo, ◌>>◌,
}
use embedded_linux_bsp.Common.World.Starts.{Starts, ask-Starts, or_undo-Starts}
use embedded_linux_bsp.Common.Ledger.{Ledger, acquire, release, release-acquire}
use embedded_linux_bsp.Driver.CharDevice.{
  Object, chrdev_region, cdev, class, device, object_resource, Kernel, Session, Action,
  create_device, create_class, my_init, destroy_device, my_exit,
}

-- What a loaded driver holds, with or without its device node.
abbrev pub loaded : Bool → Ledger Object → Ledger Object
loaded true l = acquire device (acquire class (acquire cdev (acquire chrdev_region l)))
loaded false l = acquire class (acquire cdev (acquire chrdev_region l))

abbrev with_class : Bool → Ledger Object → Ledger Object
with_class true l = acquire device (acquire class l)
with_class false l = acquire class l

create_class-Starts : (k : Kernel) → Starts (create_class k) with_class
unfolding create_class create_device pure ◌>>=◌ attempt ask hold
create_class-Starts k w = elim (Result-cases (k.class_create w.tick)) [
  | inl (e, s) ↦ inl (e, rw (s, ◌>>=◌) refl, rw (s, ◌>>=◌) refl)
  | inr (_, s) ↦
      rw (s, ◌>>=◌)
        (elim (Result-cases (k.device_create (w.tick + 1))) [
          | inl (e, t) ↦ inr (false, (_, rw (t, ◌>>=◌, attempt) refl), rw (t, ◌>>=◌, attempt) refl)
          | inr (_, t) ↦ inr (true, (_, rw (t, ◌>>=◌, attempt) refl), rw (t, ◌>>=◌, attempt) refl)
        ])
]

init-Starts :
    (k : Kernel)
    → Starts (my_init k) (λ created l. with_class created (acquire cdev (acquire chrdev_region l)))
unfolding my_init
init-Starts k = ask-Starts k.alloc_chrdev_region (or_undo chrdev_region rest) _ (
    or_undo-Starts chrdev_region rest (λ created l. with_class created (acquire cdev l))
      (ask-Starts k.cdev_add (or_undo cdev (create_class k)) _
        (or_undo-Starts cdev (create_class k) with_class (create_class-Starts k))))
  where
    rest : Action (Unit {0})
    rest = ask k.cdev_add >> or_undo cdev (create_class k)

-- Loading the driver either fails and holds what it held before, in the reverse order of taking, whichever of
-- the region, the cdev and the class is refused; or it succeeds and holds the three, with the device node
-- or without, since a refused node is not an error of `my_init`.
pub my_init-ledger :
    (k : Kernel) (w : Session)
    → ((e : ℤ) × ((my_init k w).0 ≡ err e) × ((my_init k w).1.ledger ≡ w.ledger))
      ⊎ ((created : Bool) × ((my_init k w).0 ≡ ok tt)
          × ((my_init k w).1.ledger ≡ loaded created w.ledger))
unfolding my_init
my_init-ledger k w = elim (init-Starts k w) [
  | inl failed ↦ inl failed
  | inr (true, (_, done), held) ↦ inr (true, done, held)
  | inr (false, (_, done), held) ↦ inr (false, done, held)
]

release_three :
    (l : Ledger Object) → release chrdev_region (release cdev (release class (loaded false l))) ≡ l
release_three l =
    ap (λ x. release chrdev_region (release cdev x)) (release-acquire class _)
    ∙ ap (release chrdev_region) (release-acquire cdev _)
    ∙ release-acquire chrdev_region l

-- Unloading a driver that holds what a successful `my_init` took, with its device node or without, gives all of
-- it back.
pub my_exit-ledger :
    (created : Bool) (l : Ledger Object) (w : Session)
    → w.ledger ≡ loaded created l
    → (my_exit created w).1.ledger ≡ l
unfolding my_exit destroy_device ◌>>=◌ give_back pure
my_exit-ledger true l w e =
    ap (λ x. release chrdev_region (release cdev (release class (release device x)))) e
    ∙ ap (λ x. release chrdev_region (release cdev (release class x))) (release-acquire device _)
    ∙ release_three l
my_exit-ledger false l w e =
    ap (λ x. release chrdev_region (release cdev (release class x))) e ∙ release_three l
