-- ===== src/Drm/PageFlip/Balance.antt =====
-- The calls of page_flip_minimal.c that end with what they held.
use embedded_linux_bsp.Common.{
  ℕ, zero, suc, ◌+◌, true, false, Bool, Option, none, List, [], ◌∷◌, negsuc, nonzero,
}
use embedded_linux_bsp.Common.World.{pure, fail}
use embedded_linux_bsp.Common.World.Balance.{
  IsBalanced, >>=-IsBalanced, ask-IsBalanced, emit-IsBalanced, pure-IsBalanced, fail-IsBalanced,
  if-IsBalanced,
}
use embedded_linux_bsp.Drm.Env.{Device, Action, object_resource}
use embedded_linux_bsp.Drm.Dumb.{DumbBuffer}
use embedded_linux_bsp.Drm.Connector.{Target}
use embedded_linux_bsp.Drm.PageFlip.{
  App, page_flip_handler, Wake, interrupted, select_failed, not_ready, handled, Waited, returned,
  blocked, handle_events, wait_page_flip_event, fill_buffer, request_flip, after_wait, flip_loop,
  flip_all,
}

handle_events-IsBalanced : (n : ℕ) (app : App) → IsBalanced (handle_events n app)
unfolding handle_events
handle_events-IsBalanced zero app = pure-IsBalanced app
handle_events-IsBalanced (suc n) app =
    >>=-IsBalanced (emit-IsBalanced _) λ _. handle_events-IsBalanced n (page_flip_handler app)

wait-IsBalanced : (wakes : List Wake) (app : App) → IsBalanced (wait_page_flip_event wakes app)
unfolding wait_page_flip_event
wait-IsBalanced [] app = if-IsBalanced app.page_flip_pending (pure-IsBalanced _) (pure-IsBalanced _)
wait-IsBalanced (interrupted ∷ rest) app =
    if-IsBalanced app.page_flip_pending (wait-IsBalanced rest app) (pure-IsBalanced _)
wait-IsBalanced (select_failed ∷ rest) app =
    if-IsBalanced app.page_flip_pending (pure-IsBalanced _) (pure-IsBalanced _)
wait-IsBalanced (not_ready ∷ rest) app =
    if-IsBalanced app.page_flip_pending (wait-IsBalanced rest app) (pure-IsBalanced _)
wait-IsBalanced (handled n ret ∷ rest) app =
    if-IsBalanced app.page_flip_pending
      (>>=-IsBalanced (handle_events-IsBalanced n app)
        λ app'. choose (nonzero ret) app' (wait-IsBalanced rest app'))
      (pure-IsBalanced _)
  where
    choose :
        (b : Bool) (app' : App) {m : Action Waited}
        → IsBalanced m
        → IsBalanced (elim b [ true ↦ pure (returned (negsuc 0) app' rest) | false ↦ m ])
    choose true app' h = pure-IsBalanced _
    choose false app' h = h

after_wait-IsBalanced :
    (loop : List Wake → App → Action (Option App)) (r : Waited)
    → ((rest : List Wake) (app : App) → IsBalanced (loop rest app))
    → IsBalanced (after_wait loop r)
unfolding after_wait
after_wait-IsBalanced loop blocked h = pure-IsBalanced none
after_wait-IsBalanced loop (returned ret app rest) h = choose (nonzero ret)
  where
    choose : (b : Bool) → IsBalanced (elim b [ true ↦ fail (negsuc 0) | false ↦ loop rest app ])
    choose true = fail-IsBalanced _
    choose false = h rest app

module _ (d : Device) where
  flip_loop-IsBalanced :
      (n i : ℕ) (wakes : List Wake) (app : App) → IsBalanced (flip_loop d n i wakes app)
  unfolding flip_loop fill_buffer request_flip
  flip_loop-IsBalanced zero i wakes app = pure-IsBalanced _
  flip_loop-IsBalanced (suc n) i wakes app = >>=-IsBalanced (emit-IsBalanced _) λ _.
      >>=-IsBalanced (>>=-IsBalanced (ask-IsBalanced _) λ _. emit-IsBalanced _) λ _.
        >>=-IsBalanced (wait-IsBalanced wakes _)
          λ r. after_wait-IsBalanced (flip_loop d n (i + 1)) r (flip_loop-IsBalanced n (i + 1))

  pub flip_all-IsBalanced :
      (wakes : List Wake) (target : Target) (b₀ b₁ : DumbBuffer)
      → IsBalanced (flip_all d wakes target b₀ b₁)
  unfolding flip_all fill_buffer
  flip_all-IsBalanced wakes target b₀ b₁ = >>=-IsBalanced (emit-IsBalanced _) λ _.
      >>=-IsBalanced (ask-IsBalanced _)
        λ _. >>=-IsBalanced (emit-IsBalanced _) λ _. flip_loop-IsBalanced 19 1 wakes _
