-- ===== src/Drm/PageFlip/Frames.antt =====
-- The frames that page_flip_minimal.c shows, one after the other.
use mathlib.Core.List.{append-nil, append_assoc}
use embedded_linux_bsp.Common.{
  ℕ, zero, suc, ◌+◌, ◌≡◌, refl, sym, ◌∙◌, ap, true, false, some, List, [], ◌∷◌, ◌++◌, pos,
}
use embedded_linux_bsp.Common.World.{Result, ok, pure, ◌>>=◌, emit, ask, >>=-ok}
use embedded_linux_bsp.Drm.Env.{Device, Session, Call}
use embedded_linux_bsp.Drm.Dumb.{DumbBuffer}
use embedded_linux_bsp.Drm.Connector.{Target}
use embedded_linux_bsp.Drm.PageFlip.{
  App, buf_at, page_flip_handler, Wake, interrupted, select_failed, not_ready, handled, returned,
  handle_events, wait_page_flip_event, color_at, fill_buffer, request_flip, after_wait, flip_loop,
  flip_all,
}
use embedded_linux_bsp.Drm.PageFlip.Screen.{wait_idle}

-- The answers complete so many flips, with any number of interrupts and of wakes for nothing between.
abbrev pub Delivers : ℕ → List Wake → Type 0
Delivers zero wakes = Unit
Delivers (suc n) [] = ⊥
Delivers (suc n) (interrupted ∷ rest) = Delivers (suc n) rest
Delivers (suc n) (not_ready ∷ rest) = Delivers (suc n) rest
Delivers (suc n) (select_failed ∷ rest) = ⊥
Delivers (suc n) (handled zero ret ∷ rest) = (ret ≡ pos 0) × Delivers (suc n) rest
Delivers (suc n) (handled (suc zero) ret ∷ rest) = (ret ≡ pos 0) × Delivers n rest
Delivers (suc n) (handled (suc (suc k)) ret ∷ rest) = ⊥

-- What a run leaves: a result, and what it has put out.
pub record Ends {A : Type 0} (a : A) (out : List Call) (run : Result A × Session) : Type 0 where
  pub result : run.0 ≡ ok a
  pub calls : run.1.out ≡ out

-- The wait returns 0 after the next flip, with the answers that follow.
wait-Delivers :
    (n : ℕ) (wakes : List Wake) (app : App) (w : Session)
    → app.page_flip_pending ≡ true
    → Delivers (suc n) wakes
    → (rest : List Wake) × Delivers n rest
      × (wait_page_flip_event wakes app w ≡ (
        ok (returned (pos 0) (page_flip_handler app) rest),
        record w { out = w.out ++ Call.flip_done ∷ [] },
      ))
unfolding wait_page_flip_event pure ◌>>=◌ handle_events emit page_flip_handler
wait-Delivers n [] app w busy h = absurd h
wait-Delivers n (interrupted ∷ rest) app w busy h = simp busy (wait-Delivers n rest app w busy h)
wait-Delivers n (not_ready ∷ rest) app w busy h = simp busy (wait-Delivers n rest app w busy h)
wait-Delivers n (select_failed ∷ rest) app w busy h = absurd h
wait-Delivers n (handled zero ret ∷ rest) app w busy (fine, h) =
    simp (busy, fine) (wait-Delivers n rest app w busy h)
wait-Delivers n (handled (suc zero) ret ∷ rest) app w busy (fine, h) =
    (rest, h, simp (busy, fine, wait_idle rest (page_flip_handler app) _ refl) refl)
wait-Delivers n (handled (suc (suc k)) ret ∷ rest) app w busy h = absurd h

-- The calls of `n` rounds from round `i`: the back buffer is drawn in the round's colour, its flip requested and
-- completed, and the buffers change places.
pub frames : (n i hdisplay vdisplay back front : ℕ) → List Call
frames zero i hdisplay vdisplay back front = []
frames (suc n) i hdisplay vdisplay back front =
    Call.fill_color back hdisplay vdisplay (color_at i)
    ∷ Call.page_flip back
    ∷ Call.flip_done
    ∷ frames n (i + 1) hdisplay vdisplay front back

-- The program after so many flips.
pub flipped : ℕ → App → App
flipped zero app = app
flipped (suc n) app = flipped n (page_flip_handler (record app { page_flip_pending = true }))

module _ (d : Device) (accepts : (t crtc fb : ℕ) → d.page_flip t crtc fb ≡ ok tt) where
  request_flip-accepted :
      (app : App) (w : Session)
      → request_flip d app w ≡ (
        ok tt,
        record w {
          tick = w.tick + 1;
          out = w.out ++ Call.page_flip (buf_at app app.back).fb_id ∷ [];
        },
      )
  unfolding request_flip ◌>>=◌ ask emit
  request_flip-accepted app w =
      simp (accepts w.tick app.target.crtc_id (buf_at app app.back).fb_id) refl

  flip_loop-Ends :
      (n i : ℕ) (wakes : List Wake) (app : App) (w : Session)
      → Delivers n wakes
      → Ends
          (some (flipped n app))
          (w.out
            ++ frames n i app.target.mode.hdisplay app.target.mode.vdisplay
                (buf_at app app.back).fb_id
                (buf_at app app.front).fb_id)
          (flip_loop d n i wakes app w)
  unfolding flip_loop frames flipped pure page_flip_handler buf_at fill_buffer emit after_wait
  flip_loop-Ends zero i wakes app w h = record { result = refl; calls = sym (append-nil w.out) }
  flip_loop-Ends (suc n) i wakes app w h =
      let (rest, later, waited) = wait-Delivers n wakes busy w₂ refl h in
      let ih = flip_loop-Ends n (i + 1) rest (page_flip_handler busy) w₃ later in
      let p =
        >>=-ok (fill_buffer app app.back (color_at i)) _ w w₁ tt refl
        ∙ >>=-ok (request_flip d busy) _ w₁ w₂ tt (request_flip-accepted busy w₁)
        ∙ >>=-ok (wait_page_flip_event wakes busy) _ w₂ w₃ _ waited in
      record {
        result = ap (λ r. r.0) p ∙ ih.result;
        calls =
            ap (λ r. r.1.out) p
            ∙ ih.calls
            ∙ append_assoc w₂.out (Call.flip_done ∷ []) _
            ∙ append_assoc w₁.out (Call.page_flip (buf_at app app.back).fb_id ∷ []) _
            ∙ append_assoc w.out _ _;
      }
    where
      busy : App
      busy = record app { page_flip_pending = true }

      w₁ : Session
      w₁ = record w {
        out =
            w.out
            ++ Call.fill_color (buf_at app app.back).fb_id app.target.mode.hdisplay
                app.target.mode.vdisplay (color_at i)
              ∷ [];
      }

      w₂ : Session
      w₂ = record w₁ {
        tick = w.tick + 1;
        out = w₁.out ++ Call.page_flip (buf_at app app.back).fb_id ∷ [];
      }

      w₃ : Session
      w₃ = record w₂ { out = w₂.out ++ Call.flip_done ∷ [] }

  -- The kernel takes the mode and each flip, and completes at least nineteen, with any number of interrupts
  -- between. Then the program shows its twenty frames and comes to the end of its loop: it draws the first buffer and sets
  -- the mode with it, and in each of nineteen rounds draws the buffer that is not shown, in the round's colour, requests
  -- its flip and sees it done; the two take turns, and it makes no other call that reaches the screen.
  pub flip_all-frames :
      (wakes : List Wake) (target : Target) (b₀ b₁ : DumbBuffer) (w : Session)
      → ((t crtc fb conn : ℕ) → d.set_crtc t crtc fb conn target.mode ≡ ok tt)
      → Delivers 19 wakes
      → let hd = target.mode.hdisplay in
        let vd = target.mode.vdisplay in
        (app : App) × (app.front ≡ 1)
        × Ends
            (some app)
            (w.out
              ++ Call.fill_color b₀.fb_id hd vd (color_at 0)
                ∷ Call.set_crtc b₀.fb_id
                ∷ frames 19 1 hd vd b₁.fb_id b₀.fb_id)
            (flip_all d wakes target b₀ b₁ w)
  unfolding flip_all fill_buffer emit buf_at ask flipped page_flip_handler
  flip_all-frames wakes target b₀ b₁ w modes h =
      let p =
        >>=-ok (fill_buffer app 0 (color_at 0)) _ w w₁ tt refl
        ∙ >>=-ok (ask (λ t. d.set_crtc t target.crtc_id b₀.fb_id target.conn_id target.mode)) _ w₁
            w₂ tt (simp (modes w.tick target.crtc_id b₀.fb_id target.conn_id) refl)
        ∙ >>=-ok (emit (Call.set_crtc b₀.fb_id)) _ w₂ w₃ tt refl in
      let e = flip_loop-Ends 19 1 wakes app w₃ h in
      (
        flipped 19 app,
        refl,
        record {
          result = ap (λ r. r.0) p ∙ e.result;
          calls = ap (λ r. r.1.out) p ∙ e.calls ∙ append_assoc w₁.out _ _ ∙ append_assoc w.out _ _;
        },
      )
    where
      app : App
      app = record {
        target = target;
        buf_0 = b₀;
        buf_1 = b₁;
        front = 0;
        back = 1;
        page_flip_pending = false;
      }

      w₁ : Session
      w₁ = record w {
        out =
            w.out
            ++ Call.fill_color b₀.fb_id target.mode.hdisplay target.mode.vdisplay (color_at 0) ∷ [];
      }

      w₂ : Session
      w₂ = record w₁ { tick = w.tick + 1 }

      w₃ : Session
      w₃ = record w₂ { out = w₁.out ++ Call.set_crtc b₀.fb_id ∷ [] }
