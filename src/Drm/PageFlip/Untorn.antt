-- ===== src/Drm/PageFlip/Untorn.antt =====
-- The screen, from the first call of page_flip_minimal.c to its last.
use embedded_linux_bsp.Common.{
  ℕ, ◌+◌, ◌<◌, ◌≡◌, ◌≢◌, refl, ◌∙◌, ap, inl, inr, true, false, Bool, Option, some, none, List, [],
  nonzero,
}
use embedded_linux_bsp.Common.World.{
  Result, Result-cases, ok, err, pure, ◌>>=◌, ◌>>◌, attempt, ask, hold, give_back,
}
use embedded_linux_bsp.Common.World.Puts.{IsSilent}
use embedded_linux_bsp.Common.Ledger.{acquire}
use embedded_linux_bsp.Drm.Env.{Device, Action, Session, Call, card, object_resource}
use embedded_linux_bsp.Drm.Dumb.{DumbBuffer, no_buffer}
use embedded_linux_bsp.Drm.Dumb.Balance.{IsNumbered}
use embedded_linux_bsp.Drm.Dumb.Origin.{IsFresh, IsGiven}
use embedded_linux_bsp.Drm.Dumb.Silent.{create_dumb_buffer-IsSilent}
use embedded_linux_bsp.Drm.Connector.{Target}
use embedded_linux_bsp.Drm.Connector.Found.{find_connector_crtc-IsSilent}
use embedded_linux_bsp.Drm.PageFlip.Screen.{screen_after, AtMostOne}
use embedded_linux_bsp.Drm.PageFlip.Tearing.{FlipOutcome, flip_all_no_tearing}
use embedded_linux_bsp.Drm.PageFlip.Pair.{given-Apart, Creation, creation}
use embedded_linux_bsp.Drm.PageFlip.{
  App, Wake, flip_all, destroy_both, show_flips, with_buffers, main, create_dumb_buffer,
  find_connector_and_crtc,
}
use embedded_linux_bsp.Drm.PageFlip.Silent.{destroy_both-IsSilent}

-- Nothing was torn at the end of a run.
abbrev IsUntorn : {A : Type 0} → Result A × Session → Type 0
IsUntorn run = (screen_after run.1.out).torn ≡ false

outcome-IsUntorn :
    (r : Result (Option App)) (w : Session)
    → FlipOutcome r w.out
    → (screen_after w.out).torn ≡ false
outcome-IsUntorn (err e) w h = h
outcome-IsUntorn (ok none) w h = h
outcome-IsUntorn (ok (some app)) w h = ap (λ s. s.torn) h.on_screen

silent-IsUntorn :
    {A : Type 0} (m : Action A) (w : Session)
    → IsSilent m
    → (screen_after w.out).torn ≡ false
    → IsUntorn (m w)
silent-IsUntorn m w h e = ap (λ calls. (screen_after calls).torn) (h.quiet w) ∙ e

-- Before anything is put out.
dark-IsUntorn : (calls : List Call) → calls ≡ [] → (screen_after calls).torn ≡ false
unfolding screen_after
dark-IsUntorn calls e = rw e refl

module _ (d : Device) (wakes : List Wake) (one : AtMostOne wakes) where
  show_flips-IsUntorn :
      (target : Target) (b₀ b₁ : DumbBuffer) (w : Session)
      → w.out ≡ []
      → b₀.fb_id ≢ b₁.fb_id
      → IsUntorn (show_flips d wakes target b₀ b₁ w)
  unfolding show_flips ◌>>=◌ attempt pure
  show_flips-IsUntorn target b₀ b₁ w empty distinct = finish (flip_all d wakes target b₀ b₁ w).0
    where
      shown : Session
      shown = (flip_all d wakes target b₀ b₁ w).1

      untorn : (screen_after shown.out).torn ≡ false
      untorn =
          outcome-IsUntorn (flip_all d wakes target b₀ b₁ w).0 shown
            (flip_all_no_tearing d wakes target b₀ b₁ w empty distinct one)

      destroyed : IsUntorn (destroy_both d b₀ b₁ shown)
      destroyed =
          silent-IsUntorn (destroy_both d b₀ b₁) shown (destroy_both-IsSilent d b₀ b₁) untorn

      finish :
          (r : Result (Option App))
          → IsUntorn (
              let rest : Action Bool = elim r [
                | err _ ↦ destroy_both d b₀ b₁
                | ok flips ↦ elim flips [ some _ ↦ destroy_both d b₀ b₁ | none ↦ pure false ]
              ] in
              rest shown)
      finish (err e) = destroyed
      finish (ok none) = untorn
      finish (ok (some app)) = destroyed

  module _ (numbered : IsNumbered d) (fresh : IsFresh d) where
    second-IsUntorn :
        (target : Target) (b₀ : DumbBuffer) (lo : ℕ) (w : Session)
        → w.out ≡ []
        → IsGiven d lo w.tick b₀
        → 0 < b₀.handle
        → 0 < b₀.fb_id
        → IsUntorn (
            (create_dumb_buffer d target.mode.hdisplay target.mode.vdisplay no_buffer
                >>= λ created₁. elim (nonzero created₁.1) [
                  | true ↦ destroy_both d b₀ created₁.0
                  | false ↦ show_flips d wakes target b₀ created₁.0
                ])
              w)
    unfolding ◌>>=◌
    second-IsUntorn target b₀ lo w empty g there shown =
        rw (c.returned, ◌>>=◌) (finish (nonzero c.ret))
      where
        c :
            Creation d w.ledger w
              (create_dumb_buffer d target.mode.hdisplay target.mode.vdisplay no_buffer w)
        c = creation d _ _ w.ledger w numbered refl

        after : Session
        after = (create_dumb_buffer d target.mode.hdisplay target.mode.vdisplay no_buffer w).1

        still : after.out ≡ []
        still = (create_dumb_buffer-IsSilent d _ _ no_buffer).quiet w ∙ empty

        finish :
            (b : Bool)
            → IsUntorn (
                let rest : Action Bool = elim b [
                  | true ↦ destroy_both d b₀ c.buf
                  | false ↦ show_flips d wakes target b₀ c.buf
                ] in
                rest after)
        finish true =
            silent-IsUntorn (destroy_both d b₀ c.buf) after (destroy_both-IsSilent d b₀ c.buf)
              (dark-IsUntorn after.out still)
        finish false =
            show_flips-IsUntorn target b₀ c.buf after still
              (given-Apart d lo w.tick after.tick b₀ c.buf fresh g c.given there shown).framebuffers

    with_buffers-IsUntorn :
        (target : Target) (w : Session) → w.out ≡ [] → IsUntorn (with_buffers d wakes target w)
    unfolding with_buffers ◌>>=◌
    with_buffers-IsUntorn target w empty = rw (c.returned, ◌>>=◌) (finish (nonzero c.ret) refl)
      where
        c :
            Creation d w.ledger w
              (create_dumb_buffer d target.mode.hdisplay target.mode.vdisplay no_buffer w)
        c = creation d _ _ w.ledger w numbered refl

        after : Session
        after = (create_dumb_buffer d target.mode.hdisplay target.mode.vdisplay no_buffer w).1

        still : after.out ≡ []
        still = (create_dumb_buffer-IsSilent d _ _ no_buffer).quiet w ∙ empty

        finish :
            (b : Bool)
            → nonzero c.ret ≡ b
            → IsUntorn (
                let rest : Action Bool = elim b [
                  | true ↦ destroy_both d c.buf no_buffer
                  | false ↦
                      create_dumb_buffer d target.mode.hdisplay target.mode.vdisplay no_buffer
                      >>= λ created₁. elim (nonzero created₁.1) [
                        | true ↦ destroy_both d c.buf created₁.0
                        | false ↦ show_flips d wakes target c.buf created₁.0
                      ]
                ] in
                rest after)
        finish true bad =
            silent-IsUntorn (destroy_both d c.buf no_buffer) after
              (destroy_both-IsSilent d c.buf no_buffer) (dark-IsUntorn after.out still)
        finish false good =
            second-IsUntorn target c.buf w.tick after still c.given (c.complete good).0
              (c.complete good).1

    -- The kernel wakes the program with at most one flip event at a time, numbers buffers and framebuffers from 1, and
    -- gives no handle, framebuffer or address twice. Then whatever else it answers, from the `open` to the end of `main`,
    -- or as long as it waits, no buffer is drawn while it is on the screen or waits to be.
    pub main_no_tearing :
        (w : Session) → w.out ≡ [] → (screen_after (main d wakes w).1.out).torn ≡ false
    unfolding main ◌>>=◌ attempt ask hold give_back pure
    main_no_tearing w empty = elim (Result-cases (d.open_card w.tick)) [
      | inl (x, q) ↦ rw (q, ◌>>=◌) (dark-IsUntorn w.out empty)
      | inr (_, q) ↦
          rw (q, ◌>>=◌)
            (finish (find_connector_and_crtc d opened).0 (find_connector_and_crtc d opened).1
              ((find_connector_crtc-IsSilent d).quiet opened ∙ empty))
    ]
      where
        opened : Session
        opened = record w { tick = w.tick + 1; ledger = acquire card w.ledger }

        closing : Action Bool → Action (Option ℕ)
        closing body = do
          finished ← body
          elim finished [ true ↦ do give_back card; pure (some 0) | false ↦ pure none ]

        closed :
            (body : Action Bool) (w' : Session) → IsUntorn (body w') → IsUntorn (closing body w')
        closed body w' h = elim (Result-cases (body w').0) [
          | inl (e, q) ↦ rw (q, ◌>>=◌) h
          | inr (true, q) ↦ rw (q, ◌>>=◌) h
          | inr (false, q) ↦ rw (q, ◌>>=◌) h
        ]

        rest : Result Target → Action (Option ℕ)
        rest found =
            closing (elim found [ err _ ↦ pure true | ok target ↦ with_buffers d wakes target ])

        finish : (found : Result Target) (w' : Session) → w'.out ≡ [] → IsUntorn (rest found w')
        finish (err _) w' still = dark-IsUntorn w'.out still
        finish (ok target) w' still =
            closed (with_buffers d wakes target) w' (with_buffers-IsUntorn target w' still)
