-- ===== src/Drm/PrimeFlow/Closing.antt =====
-- What the PRIME program does on its own, without a producer.
use embedded_linux_bsp.Common.{◌+◌, ℤ, ◌≡◌, refl, ◌⊎◌, inl, inr}
use embedded_linux_bsp.Common.World.{
  Result-cases, ok, err, World, pure, ◌>>=◌, attempt, ask, hold, give_back,
}
use embedded_linux_bsp.Common.Ledger.{release-acquire}
use embedded_linux_bsp.Drm.PrimeFlow.{
  Object, drm_fd, object_resource, Device, get_external_dma_buf_fd, with_external, main,
}

-- Whatever the device answers, `main` asks it for nothing but the `open`, imports no buffer, and holds at its end what
-- it held at first, the card being closed. It exits with 1 if the `open` is refused, and with 0 if not.
pub main-closes :
    (d : Device) (w : World Object (Unit {0}))
    → let (ret, after) = main d w in
      (after.ledger ≡ w.ledger)
      × (after.tick ≡ w.tick + 1)
      × (((e : ℤ) × (d.open_card w.tick ≡ err e) × (ret ≡ ok 1))
          ⊎ ((d.open_card w.tick ≡ ok tt) × (ret ≡ ok 0)))
unfolding main with_external ◌>>=◌ attempt ask hold give_back pure get_external_dma_buf_fd
main-closes d w = elim (Result-cases (d.open_card w.tick)) [
  | inl (e, q) ↦ rw (q, ◌>>=◌) (refl, refl, inl (e, refl, refl))
  | inr (_, q) ↦ rw (q, ◌>>=◌) (release-acquire drm_fd w.ledger, refl, inr (refl, refl))
]
