-- ===== src/Driver/FaultUser/Touching.antt =====
-- The process and the driver together.
use embedded_linux_bsp.Common.{
  ℕ, ◌+◌, ◌≡◌, ◌≢◌, refl, subst, sym, ◌∙◌, ap, ◌⊎◌, inl, inr, some, List, [], ◌∷◌, ◌++◌,
}
use embedded_linux_bsp.Common.World.{
  Result, Result-cases, ok, World, pure, ◌>>=◌, attempt, ask, emit, hold, give_back,
}
use embedded_linux_bsp.Common.Ledger.{Ledger, acquire, release, again, release-acquire}
use embedded_linux_bsp.Driver.FaultDevice
use embedded_linux_bsp.Driver.FaultDevice.{
  page_ref, miscdevice, my_exit, object_resource as page_resource,
}
use embedded_linux_bsp.Driver.FaultDevice.References.{
  Event, fault, unmapped, serve_all, mappings, my_exit-again,
}
use embedded_linux_bsp.Driver.FaultUser.{
  Object, fd, mapping, object_resource, Kernel, set_first, map_size, main,
}

-- How the program ends: its write is done, after a page fault; or it was refused, the mapping with the descriptor open.
abbrev pub Touched : List ℕ → World Object Event → Result (List ℕ × ℕ) × World Object Event → Type 0
Touched page w (ret, after) =
    ((ret ≡ ok (set_first 65 page, 0))
      × (after.out ≡ (w.out ++ fault ∷ []) ++ unmapped ∷ [])
      × (after.ledger ≡ w.ledger))
    ⊎ ((ret ≡ ok (page, 1))
        × (after.out ≡ w.out)
        × ((after.ledger ≡ w.ledger) ⊎ (after.ledger ≡ acquire fd w.ledger)))

main-Touched :
    (k : Kernel) (page : List ℕ) (w : World Object Event) → Touched page w (main k page w)
unfolding main ◌>>=◌ attempt ask emit hold give_back pure
main-Touched k page w = elim (Result-cases (k.open_device w.tick)) [
  | inl (e, q) ↦ rw (q, ◌>>=◌) (inr (refl, refl, inl refl))
  | inr (_, o) ↦
      rw (o, ◌>>=◌)
        (elim (Result-cases (k.mmap (w.tick + 1) map_size)) [
          | inl (e, q) ↦ rw (q, ◌>>=◌) (inr (refl, refl, inr refl))
          | inr (_, q) ↦
              rw (q, ◌>>=◌)
                (inl (
                  refl,
                  refl,
                  ap (release fd) (release-acquire mapping _) ∙ release-acquire fd w.ledger,
                ))
        ])
]

-- A driver that holds its page and its device serves what the program did, and is unloaded: nothing of the driver is
-- left, whatever the kernel answered to the program.
pub main-my_exit :
    (k : Kernel) (contents : List ℕ) (w : World Object Event) (page : ℕ)
    (l : Ledger FaultDevice.Object) (driver : World FaultDevice.Object (Unit {0}))
    → w.out ≡ []
    → page ≢ 0
    → driver.ledger ≡ acquire miscdevice (acquire (page_ref page) l)
    → (my_exit page (serve_all page (main k contents w).1.out driver).1).1.ledger ≡ l
unfolding again
main-my_exit k contents w page l driver empty some_page held = elim (main-Touched k contents w) [
  | inl (_, calls, _) ↦ served _ (calls ∙ ap (λ o. (o ++ fault ∷ []) ++ unmapped ∷ []) empty) refl
  | inr (_, calls, _) ↦ served _ (calls ∙ empty) refl
]
  where
    served :
        (events : List Event)
        → (main k contents w).1.out ≡ events
        → mappings 0 events ≡ some 0
        → (my_exit page (serve_all page (main k contents w).1.out driver).1).1.ledger ≡ l
    served events same ends =
        my_exit-again page 0 (main k contents w).1.out l driver some_page
          (subst (λ e. mappings 0 e ≡ some 0) (sym same) ends) held
