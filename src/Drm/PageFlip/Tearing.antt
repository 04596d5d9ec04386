-- ===== src/Drm/PageFlip/Tearing.antt =====
-- What is on the screen while page_flip_minimal.c draws.
use embedded_linux_bsp.Common.{
  ℕ, zero, suc, ◌+◌, ◌≡◌, ◌≢◌, refl, subst, sym, ◌∙◌, ap, ◌⊎◌, inl, inr, true, false, Option, some,
  List, [], ◌∷◌, ◌++◌, ℤ, pos, negsuc,
}
use embedded_linux_bsp.Common.World.{Result, Result-cases, ok, err, pure, fail, ◌>>=◌, ask, emit}
use embedded_linux_bsp.Drm.Env.{Device, Action, Session, Call}
use embedded_linux_bsp.Drm.Dumb.{DumbBuffer}
use embedded_linux_bsp.Drm.Connector.{Target}
use embedded_linux_bsp.Drm.PageFlip.{
  App, buf_at, Wake, Waited, returned, blocked, color_at, fill_buffer, request_flip, after_wait,
  flip_loop, flip_all,
}
use embedded_linux_bsp.Drm.PageFlip.Screen.{
  screen_after, AtMostOne, IsSteady, IsFlipping, Outcome, wait-Outcome, draw_and_request-IsFlipping,
}

-- How the loop ends: all rounds done and steady again, or stopped with nothing torn.
abbrev pub FlipOutcome : Result (Option App) → List Call → Type 0
FlipOutcome (ok (some app)) out = IsSteady app out
FlipOutcome _ out = (screen_after out).torn ≡ false

after_wait-Outcome :
    (loop : List Wake → App → Action (Option App))
    → ((rest : List Wake) (app : App) (v : Session)
        → AtMostOne rest
        → IsSteady app v.out
        → FlipOutcome (loop rest app v).0 (loop rest app v).1.out)
    → (r : Waited) (v : Session) → Outcome r v.out
    → FlipOutcome (after_wait loop r v).0 (after_wait loop r v).1.out
unfolding after_wait pure fail
after_wait-Outcome loop h blocked v post = post
after_wait-Outcome loop h (returned (pos zero) app rest) v post = h rest app v post.1 post.0
after_wait-Outcome loop h (returned (pos (suc n)) app rest) v post = post
after_wait-Outcome loop h (returned (negsuc n) app rest) v post = post

-- How a request ends: refused with nothing put out, or taken.
record IsRefused (before : List Call) (run : Result (Unit {0}) × Session) : Type 0 where
  code : ℤ
  error : run.0 ≡ err code
  out : run.1.out ≡ before

record IsTaken (after : List Call) (run : Result (Unit {0}) × Session) : Type 0 where
  fine : run.0 ≡ ok tt
  out : run.1.out ≡ after

module _ (d : Device) where
  request_flip_cases :
      (app : App) (w : Session)
      → IsRefused w.out (request_flip d app w)
        ⊎ IsTaken (w.out ++ Call.page_flip (buf_at app app.back).fb_id ∷ []) (request_flip d app w)
  unfolding request_flip ◌>>=◌ ask emit
  request_flip_cases app w =
      elim (Result-cases (d.page_flip w.tick app.target.crtc_id (buf_at app app.back).fb_id)) [
        | inl (x, refused) ↦
            inl (record {
              code = x;
              error = rw (refused, ◌>>=◌) refl;
              out = rw (refused, ◌>>=◌) refl;
            })
        | inr (_, taken) ↦
            inr (record { fine = rw (taken, ◌>>=◌) refl; out = rw (taken, ◌>>=◌) refl })
      ]

  -- The rest of a round, after the request was taken.
  flip_loop-Outcome :
      (n i : ℕ) (wakes : List Wake) (app : App) (w : Session)
      → AtMostOne wakes
      → IsSteady app w.out
      → FlipOutcome (flip_loop d n i wakes app w).0 (flip_loop d n i wakes app w).1.out
  unfolding flip_loop pure ◌>>=◌ fail fill_buffer emit buf_at
  flip_loop-Outcome zero i wakes app w one h = h
  flip_loop-Outcome (suc n) i wakes app w one h = elim (request_flip_cases busy drawn) [
    | inl r ↦
        rw (r.error, ◌>>=◌)
          (ap (λ c. (screen_after c).torn) r.out ∙ ap (λ s. s.torn) (step.0 ∙ h.on_screen))
    | inr t ↦
        rw (t.fine, ◌>>=◌)
          (let (r, done, post) =
              wait-Outcome wakes busy (request_flip d busy drawn).1 one
                (subst (IsFlipping busy) (sym t.out) step.1) in
            rw (done, ◌>>=◌)
              (after_wait-Outcome (flip_loop d n (i + 1))
                (λ rest later v. flip_loop-Outcome n (i + 1) rest later v) r _ post))
  ]
    where
      busy : App
      busy = record app { page_flip_pending = true }

      drawn : Session
      drawn = (fill_buffer app app.back (color_at i) w).1

      step :
          (screen_after drawn.out ≡ screen_after w.out)
          × IsFlipping busy (drawn.out ++ Call.page_flip (buf_at app app.back).fb_id ∷ [])
      step = draw_and_request-IsFlipping app w.out _ _ (color_at i) h

  -- Two buffers with different framebuffers are shown by a program that has drawn nothing before, and the kernel
  -- wakes it with at most one flip event at a time, and any interrupts and errors. Then however the twenty
  -- frames end (all shown, an error, or still waiting), no buffer was drawn while it was on the screen or waited
  -- to be; and if all are shown, nothing waits, no flip is pending, and the buffer at `front`, which differs from the one at `back`,
  -- is on the screen.
  pub flip_all_no_tearing :
      (wakes : List Wake) (target : Target) (b₀ b₁ : DumbBuffer) (w : Session)
      → w.out ≡ []
      → b₀.fb_id ≢ b₁.fb_id
      → AtMostOne wakes
      → FlipOutcome (flip_all d wakes target b₀ b₁ w).0 (flip_all d wakes target b₀ b₁ w).1.out
  unfolding flip_all ◌>>=◌ fill_buffer emit ask buf_at screen_after
  flip_all_no_tearing wakes target b₀ b₁ w empty distinct one =
      elim (Result-cases (d.set_crtc w.tick target.crtc_id b₀.fb_id target.conn_id target.mode)) [
        | inl (x, refused) ↦ rw (refused, ◌>>=◌) (rw empty refl)
        | inr (_, shown) ↦
            rw (shown, ◌>>=◌)
              (flip_loop-Outcome 19 1 wakes _ _ one (record {
                idle = refl;
                apart = inl (refl, refl);
                distinct = distinct;
                on_screen = rw empty refl;
              }))
      ]
