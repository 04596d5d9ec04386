-- ===== src/Drm/PageFlip/Ending.antt =====
-- How `main` of page_flip_minimal.c ends: from the creation of the two buffers to the label `err_close`.
use embedded_linux_bsp.Common.{
  ℕ, ◌+◌, ◌<◌, ◌≡◌, refl, ◌∙◌, ap, inl, inr, ◌⊎◌, true, false, Bool, Option, some, none, List,
  nonzero,
}
use embedded_linux_bsp.Common.World.{
  Result, Result-cases, ok, err, pure, ◌>>=◌, attempt, ask, hold, give_back, >>=-ok, ◌>>◌,
}
use embedded_linux_bsp.Common.Ledger.{Ledger, acquire, release, release-acquire}
use embedded_linux_bsp.Drm.Env.{Device, Action, Session, Object, card, object_resource}
use embedded_linux_bsp.Drm.Dumb.{DumbBuffer, no_buffer}
use embedded_linux_bsp.Drm.Dumb.Balance.{IsNumbered, holding}
use embedded_linux_bsp.Drm.PageFlip.Pair.{given-Apart, Creation, creation}
use embedded_linux_bsp.Drm.Dumb.Origin.{IsFresh, IsGiven}
use embedded_linux_bsp.Drm.Connector.{Target}
use embedded_linux_bsp.Drm.Connector.First.{find_connector_crtc-IsBalanced}
use embedded_linux_bsp.Drm.PageFlip.Release.{
  Apart, dropped, destroy-dropped, dropped-holding, destroy_both-ends, show_flips-ends,
}
use embedded_linux_bsp.Drm.PageFlip.{
  Wake, destroy_dumb_buffer, destroy_both, show_flips, with_buffers, main, create_dumb_buffer,
  find_connector_and_crtc,
}

-- An ending: it returns and holds `l`, or it still waits.
abbrev Ends : Ledger Object → Result Bool × Session → Type 0
Ends l (ret, after) = (ret ≡ ok false) ⊎ ((ret ≡ ok true) × (after.ledger ≡ l))

module _ (d : Device) where
  destroy-nothing : (w : Session) → destroy_dumb_buffer no_buffer w ≡ (ok no_buffer, w)
  unfolding destroy_dumb_buffer pure
  destroy-nothing w = refl

  -- The second buffer was not created.
  destroy_both-first :
      (b : DumbBuffer) (l : Ledger Object) (w : Session)
      → (b ≡ no_buffer) ⊎ (0 < b.handle)
      → w.ledger ≡ holding b l
      → Ends l (destroy_both d b no_buffer w)
  unfolding destroy_both ◌>>=◌ pure
  destroy_both-first b l w (inl none_made) held =
      let q = ap (λ x. destroy_dumb_buffer x w) none_made ∙ destroy-nothing w in
      let p =
        >>=-ok (destroy_dumb_buffer b) (λ _. destroy_dumb_buffer no_buffer >>= λ _. pure true) w w
          no_buffer q
        ∙ >>=-ok (destroy_dumb_buffer no_buffer) (λ _. pure true) w w no_buffer
            (destroy-nothing w) in
      inr (ap (λ r. r.0) p, ap (λ r. r.1.ledger) p ∙ held ∙ ap (λ x. holding x l) none_made)
  destroy_both-first b l w (inr there) held =
      let w₁ : Session = record w { ledger = dropped b w.ledger } in
      let p =
        >>=-ok (destroy_dumb_buffer b) (λ _. destroy_dumb_buffer no_buffer >>= λ _. pure true) w w₁
          no_buffer (destroy-dropped b w there)
        ∙ >>=-ok (destroy_dumb_buffer no_buffer) (λ _. pure true) w₁ w₁ no_buffer
            (destroy-nothing w₁) in
      inr
        (ap (λ r. r.0) p, ap (λ r. r.1.ledger) p ∙ ap (dropped b) held ∙ dropped-holding b l there)

  module _ (numbered : IsNumbered d) (fresh : IsFresh d) where
    -- the second buffer, over a first one that is whole
    second-Ends :
        (wakes : List Wake) (target : Target) (b₀ : DumbBuffer) (lo : ℕ) (l : Ledger Object)
        (w : Session)
        → IsGiven d lo w.tick b₀
        → 0 < b₀.handle
        → 0 < b₀.fb_id
        → w.ledger ≡ holding b₀ l
        → Ends l (
            (create_dumb_buffer d target.mode.hdisplay target.mode.vdisplay no_buffer
                >>= λ created₁. elim (nonzero created₁.1) [
                  | true ↦ destroy_both d b₀ created₁.0
                  | false ↦ show_flips d wakes target b₀ created₁.0
                ])
              w)
    unfolding ◌>>=◌
    second-Ends wakes target b₀ lo l w g there shown held =
        rw (c.returned, ◌>>=◌) (finish (nonzero c.ret) refl)
      where
        c :
            Creation d
              (holding b₀ l)
              w
              (create_dumb_buffer d target.mode.hdisplay target.mode.vdisplay no_buffer w)
        c = creation d _ _ (holding b₀ l) w numbered held

        after : Session
        after = (create_dumb_buffer d target.mode.hdisplay target.mode.vdisplay no_buffer w).1

        two : Apart b₀ c.buf
        two = given-Apart d lo w.tick after.tick b₀ c.buf fresh g c.given there shown

        finish :
            (b : Bool)
            → nonzero c.ret ≡ b
            → Ends l (
                let rest : Action Bool = elim b [
                  | true ↦ destroy_both d b₀ c.buf
                  | false ↦ show_flips d wakes target b₀ c.buf
                ] in
                rest after)
        finish false good =
            show_flips-ends d wakes target b₀ c.buf l after there (c.complete good).0 two c.held
        finish true bad = elim c.sound [
          | inl none_made ↦ rw none_made (
              destroy_both-first b₀ l after (inr there)
                (c.held ∙ ap (λ x. holding x (holding b₀ l)) none_made))
          | inr there₁ ↦ inr (destroy_both-ends d b₀ c.buf l after there there₁ two c.held)
        ]

    with_buffers-Ends :
        (wakes : List Wake) (target : Target) (l : Ledger Object) (w : Session)
        → w.ledger ≡ l
        → Ends l (with_buffers d wakes target w)
    unfolding with_buffers ◌>>=◌
    with_buffers-Ends wakes target l w held = rw (c.returned, ◌>>=◌) (finish (nonzero c.ret) refl)
      where
        c :
            Creation d l w
              (create_dumb_buffer d target.mode.hdisplay target.mode.vdisplay no_buffer w)
        c = creation d _ _ l w numbered held

        after : Session
        after = (create_dumb_buffer d target.mode.hdisplay target.mode.vdisplay no_buffer w).1

        finish :
            (b : Bool)
            → nonzero c.ret ≡ b
            → Ends l (
                let rest : Action Bool = elim b [
                  | true ↦ destroy_both d c.buf no_buffer
                  | false ↦
                      create_dumb_buffer d target.mode.hdisplay target.mode.vdisplay no_buffer
                      >>= λ created₁. elim (nonzero created₁.1) [
                        | true ↦ destroy_both d c.buf created₁.0
                        | false ↦ show_flips d wakes target c.buf created₁.0
                      ]
                ] in
                rest after)
        finish true bad = destroy_both-first c.buf l after c.sound c.held
        finish false good =
            second-Ends wakes target c.buf w.tick l after c.given (c.complete good).0
              (c.complete good).1 c.held

    -- On a device that numbers buffers and framebuffers from 1, and gives no handle, framebuffer or address twice,
    -- `main` either still waits for an event when the answers of the kernel are used up; or it returns, and holds
    -- just what it held before: both buffers, their framebuffers and mappings and the card are given back, each
    -- once, whatever was refused on the way, the second buffer half way included.
    pub main-returns :
        (wakes : List Wake) (w : Session)
        → let (ret, after) = main d wakes w in
          (ret ≡ ok none) ⊎ ((status : ℕ) × (ret ≡ ok (some status)) × (after.ledger ≡ w.ledger))
    unfolding main ◌>>=◌ attempt ask hold give_back pure
    main-returns wakes w = elim (Result-cases (d.open_card w.tick)) [
      | inl (x, q) ↦ rw (q, ◌>>=◌) (inr (1, refl, refl))
      | inr (_, q) ↦
          rw (q, ◌>>=◌)
            (finish (find_connector_and_crtc d opened).0 (find_connector_and_crtc d opened).1
              ((find_connector_crtc-IsBalanced d).held opened))
    ]
      where
        opened : Session
        opened = record w { tick = w.tick + 1; ledger = acquire card w.ledger }

        rest : Result Target → Action (Option ℕ)
        rest found = do
          finished ← elim found [ err _ ↦ pure true | ok target ↦ with_buffers d wakes target ]
          elim finished [ true ↦ do give_back card; pure (some 0) | false ↦ pure none ]

        finish :
            (found : Result Target) (w' : Session)
            → w'.ledger ≡ acquire card w.ledger
            → ((rest found w').0 ≡ ok none)
              ⊎ ((status : ℕ) × ((rest found w').0 ≡ ok (some status))
                  × ((rest found w').1.ledger ≡ w.ledger))
        finish (err _) w' held =
            inr (0, refl, ap (release card) held ∙ release-acquire card w.ledger)
        finish (ok target) w' held =
            elim (with_buffers-Ends wakes target (acquire card w.ledger) w' held) [
              | inl r ↦ rw (r, ◌>>=◌) (inl refl)
              | inr (r, back) ↦
                  rw (r, ◌>>=◌)
                    (inr (0, refl, ap (release card) back ∙ release-acquire card w.ledger))
            ]
