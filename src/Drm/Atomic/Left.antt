-- ===== src/Drm/Atomic/Left.antt =====
-- What atomic_modeset_minimal.c holds at its end, whatever the device answers.
use embedded_linux_bsp.Common.{◌+◌, ◌≡◌, refl, ◌∙◌, ap, ◌⊎◌, inl, inr}
use embedded_linux_bsp.Common.World.{Result-cases, pure, ◌>>=◌, attempt, ask, bracket}
use embedded_linux_bsp.Common.Ledger.{acquire, release, release-acquire}
use embedded_linux_bsp.Drm.Env.{Device, Session, card, object_resource}
use embedded_linux_bsp.Drm.Dumb.Balance.{IsNumbered, holding}
use embedded_linux_bsp.Drm.Dumb.Other.{release-holding}
use embedded_linux_bsp.Drm.Atomic.Balance.{IsAbandoned, modeset-ledger}
use embedded_linux_bsp.Drm.Atomic.{main}

-- On a device that numbers buffers and framebuffers from 1, `main` gives back all that it took, whatever is refused on
-- the way; or a `create_dumb_buffer` has failed half way, and just what that had created stays held.
pub main_atomic_left :
    (d : Device)
    → IsNumbered d
    → (w : Session) → ((main d w).1.ledger ≡ w.ledger) ⊎ IsAbandoned d w.ledger (main d w).1.ledger
unfolding main ◌>>=◌ attempt ask bracket pure
main_atomic_left d numbered w = elim (Result-cases (d.open_card w.tick)) [
  | inl (x, q) ↦ inl (rw (q, ◌>>=◌, attempt) refl)
  | inr (_, q) ↦ elim (modeset-ledger d numbered v) [
    | inl same ↦
        inl (rw (q, ◌>>=◌, attempt) (ap (release card) same ∙ release-acquire card w.ledger))
    | inr a ↦ inr (record {
      target = a.target;
      start = a.start;
      buf = a.buf;
      ret = a.ret;
      created = a.created;
      failed = a.failed;
      left =
          rw (q, ◌>>=◌, attempt)
            (ap (release card) a.left
              ∙ release-holding card a.buf (acquire card w.ledger)
                  (record { no_map = λ x e. refl; no_fb = refl; no_gem = refl })
              ∙ ap (holding a.buf) (release-acquire card w.ledger));
    })
  ]
]
  where
    v : Session
    v = record w { tick = w.tick + 1 + 1 + 1; ledger = acquire card w.ledger }
