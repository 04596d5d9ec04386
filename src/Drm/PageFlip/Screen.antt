-- ===== src/Drm/PageFlip/Screen.antt =====
-- What is on the screen through one round of page_flip_minimal.c.
use mathlib.Core.List.{foldl, foldl-append}
use embedded_linux_bsp.Common.{
  ℕ, zero, suc, ◌≤◌, ◌≡◌, ◌≢◌, refl, sym, ◌∙◌, ap, ◌⊎◌, inl, inr, true, false, Bool, Bool-cases,
  ◌==◌, ◌||◌, Option, none, some, List, [], ◌∷◌, ◌++◌, pos, negsuc, nonzero, arith,
}
use embedded_linux_bsp.Common.World.{ok, pure, ◌>>=◌, emit}
use embedded_linux_bsp.Drm.Env.{Session, Call}
use embedded_linux_bsp.Drm.PageFlip.{
  App, buf_at, page_flip_handler, Wake, interrupted, select_failed, not_ready, handled, Waited,
  returned, blocked, handle_events, wait_page_flip_event,
}

-- The screen, as the DRM documentation describes it: the framebuffer that is scanned out, and the
-- one that waits for the next vertical blank; `torn` once a buffer was drawn while it was either.
pub record Screen : Type 0 where
  pub scanout : Option ℕ
  pub queued : Option ℕ
  pub torn : Bool

abbrev is_some_of : ℕ → Option ℕ → Bool
is_some_of fb none = false
is_some_of fb (some x) = x == fb

abbrev pub watch : Screen → Call → Screen
watch s (Call.fill_color fb _ _ _) = record s {
  torn = s.torn || (is_some_of fb s.scanout || is_some_of fb s.queued);
}
watch s (Call.set_crtc fb) = record s { scanout = some fb }
watch s (Call.page_flip fb) = record s { queued = some fb }
watch s Call.flip_done = record s { scanout = s.queued; queued = none }
watch s (Call.commit _) = s

-- The screen after a sequence of calls, dark at its start.
unfoldable pub screen_after : List Call → Screen
screen_after = foldl watch (record { scanout = none; queued = none; torn = false })

screen_after-emit :
    (calls : List Call) (c : Call) → screen_after (calls ++ c ∷ []) ≡ watch (screen_after calls) c
unfolding screen_after
screen_after-emit calls c = foldl-append watch _ calls (c ∷ [])

-- The kernel gives one event for a flip, and none without one.
abbrev pub AtMostOne : List Wake → Type 0
AtMostOne [] = Unit
AtMostOne (handled n _ ∷ rest) = (n ≤ 1) × AtMostOne rest
AtMostOne (interrupted ∷ rest) = AtMostOne rest
AtMostOne (select_failed ∷ rest) = AtMostOne rest
AtMostOne (not_ready ∷ rest) = AtMostOne rest

-- Between two rounds: the front buffer is on the screen and nothing is queued.
pub record IsSteady (app : App) (out : List Call) : Type 0 where
  pub idle : app.page_flip_pending ≡ false
  pub apart : ((app.front ≡ 0) × (app.back ≡ 1)) ⊎ ((app.front ≡ 1) × (app.back ≡ 0))
  pub distinct : app.buf_0.fb_id ≢ app.buf_1.fb_id
  pub on_screen :
      screen_after out
      ≡ record { scanout = some (buf_at app app.front).fb_id; queued = none; torn = false }

-- A flip is under way: it was requested, for the back buffer.
pub record IsFlipping (app : App) (out : List Call) : Type 0 where
  pub busy : app.page_flip_pending ≡ true
  pub apart : ((app.front ≡ 0) × (app.back ≡ 1)) ⊎ ((app.front ≡ 1) × (app.back ≡ 0))
  pub distinct : app.buf_0.fb_id ≢ app.buf_1.fb_id
  pub on_screen : screen_after out ≡ record {
    scanout = some (buf_at app app.front).fb_id;
    queued = some (buf_at app app.back).fb_id;
    torn = false;
  }

-- The handler completes the flip.
flip_done-IsSteady :
    (app : App) (out : List Call)
    → IsFlipping app out
    → IsSteady (page_flip_handler app) (out ++ Call.flip_done ∷ [])
unfolding page_flip_handler buf_at
flip_done-IsSteady app out h = record {
  idle = refl;
  apart = ground (arith, h.apart);
  distinct = h.distinct;
  on_screen = screen_after-emit out Call.flip_done ∙ ap (λ s. watch s Call.flip_done) h.on_screen;
}

-- What the wait leaves: no drawing took place, and a return of 0 finds the flip done.
abbrev pub Outcome : Waited → List Call → Type 0
Outcome blocked out = (screen_after out).torn ≡ false
Outcome (returned (pos zero) app rest) out = IsSteady app out × AtMostOne rest
Outcome (returned _ app rest) out = (screen_after out).torn ≡ false

-- Without a pending flip the wait returns at once.
pub wait_idle :
    (wakes : List Wake) (app : App) (w : Session)
    → app.page_flip_pending ≡ false
    → wait_page_flip_event wakes app w ≡ (ok (returned (pos 0) app wakes), w)
unfolding wait_page_flip_event pure
wait_idle [] app w h = simp h
wait_idle (wake ∷ rest) app w h = simp h

pub wait-Outcome :
    (wakes : List Wake) (app : App) (w : Session)
    → AtMostOne wakes
    → IsFlipping app w.out
    → (r : Waited) × ((wait_page_flip_event wakes app w).0 ≡ ok r)
      × Outcome r (wait_page_flip_event wakes app w).1.out
unfolding wait_page_flip_event pure ◌>>=◌ handle_events emit page_flip_handler
wait-Outcome [] app w one h = simp h.busy (blocked, refl, ap (λ s. s.torn) h.on_screen)
wait-Outcome (interrupted ∷ rest) app w one h = simp h.busy (wait-Outcome rest app w one h)
wait-Outcome (not_ready ∷ rest) app w one h = simp h.busy (wait-Outcome rest app w one h)
wait-Outcome (select_failed ∷ rest) app w one h =
    simp h.busy (returned (negsuc 0) app rest, refl, ap (λ s. s.torn) h.on_screen)
wait-Outcome (handled zero ret ∷ rest) app w one h = elim (Bool-cases (nonzero ret)) [
  | inl bad ↦ simp (h.busy, bad) (returned (negsuc 0) app rest, refl, ap (λ s. s.torn) h.on_screen)
  | inr good ↦ simp (h.busy, good) (wait-Outcome rest app w one.1 h)
]
wait-Outcome (handled (suc zero) ret ∷ rest) app w one h = elim (Bool-cases (nonzero ret)) [
  | inl bad ↦
      simp (h.busy, bad)
        (
          returned (negsuc 0) (page_flip_handler app) rest,
          refl,
          ap (λ s. s.torn) (flip_done-IsSteady app w.out h).on_screen,
        )
  | inr good ↦
      simp (h.busy, good, wait_idle rest (page_flip_handler app) _ refl)
        (
          returned (pos 0) (page_flip_handler app) rest,
          refl,
          (flip_done-IsSteady app w.out h, one.1),
        )
]
wait-Outcome (handled (suc (suc n)) ret ∷ rest) app w one h = absurd (omega arith)

-- Drawing the back buffer changes nothing on the screen, and a flip that is requested is under way.
pub draw_and_request-IsFlipping :
    (app : App) (out : List Call) (hd vd color : ℕ)
    → IsSteady app out
    → let drawn = out ++ Call.fill_color (buf_at app app.back).fb_id hd vd color ∷ [] in
      (screen_after drawn ≡ screen_after out)
      × IsFlipping
          (record app { page_flip_pending = true })
          (drawn ++ Call.page_flip (buf_at app app.back).fb_id ∷ [])
unfolding buf_at
draw_and_request-IsFlipping app out hd vd color h = (
  drawn_same,
  record {
    busy = refl;
    apart = h.apart;
    distinct = h.distinct;
    on_screen =
        screen_after-emit _ _
        ∙ ap (λ s. watch s (Call.page_flip (buf_at app app.back).fb_id)) (drawn_same ∙ h.on_screen);
  },
)
  where
    untouched : is_some_of (buf_at app app.back).fb_id (some (buf_at app app.front).fb_id) ≡ false
    untouched = ground (arith, h.apart, h.distinct)

    drawn_same :
        screen_after (out ++ Call.fill_color (buf_at app app.back).fb_id hd vd color ∷ [])
        ≡ screen_after out
    drawn_same =
        screen_after-emit out _
        ∙ ap (λ s. watch s (Call.fill_color (buf_at app app.back).fb_id hd vd color)) h.on_screen
        ∙ ap
            (λ b. record {
              scanout = some (buf_at app app.front).fb_id;
              queued = none;
              torn = b || false;
            })
            untouched
        ∙ sym h.on_screen
