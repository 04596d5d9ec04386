-- ===== src/Drm/Dumb/Complete.antt =====
-- A buffer that `create_dumb_buffer` reports as made.
use embedded_linux_bsp.Common.{ℕ, ◌<◌, ◌≡◌, false, ℤ, nonzero}
use embedded_linux_bsp.Common.World.{ok, err}
use embedded_linux_bsp.Common.World.Ensures.{
  Ensures, Answered, attempt-Ensures, pure-Ensures, >>=-Ensures,
}
use embedded_linux_bsp.Drm.Env.{Device, object_resource}
use embedded_linux_bsp.Drm.Dumb.{
  DumbBuffer, no_buffer, create_dumb_buffer, add_framebuffer, prepare_map, map_buffer,
}
use embedded_linux_bsp.Drm.Dumb.Balance.{IsNumbered}

-- A buffer that was created without an error has its object and its framebuffer.
abbrev pub IsComplete : DumbBuffer × ℤ → Type 0
IsComplete r = nonzero r.1 ≡ false → (0 < r.0.handle) × (0 < r.0.fb_id)

abbrev Any : {A : Type 0} → A → Type 0
Any _ = Unit

module _ (d : Device) (numbered : IsNumbered d) where
  map_buffer-Ensures :
      (offset : ℕ) (buf : DumbBuffer)
      → (0 < buf.handle) × (0 < buf.fb_id)
      → Ensures IsComplete (map_buffer d offset buf)
  unfolding map_buffer
  map_buffer-Ensures offset buf h =
      >>=-Ensures Any _ (record { post = λ w r e. tt })
        (elim [
          | err _ ↦ λ _. pure-Ensures _ _ (λ q. cc)
          | ok a ↦ λ _.
              >>=-Ensures Any _ (record { post = λ w r e. tt }) λ _ _. pure-Ensures _ _ (λ q. h)
        ])

  prepare_map-Ensures :
      (buf : DumbBuffer)
      → (0 < buf.handle) × (0 < buf.fb_id)
      → Ensures IsComplete (prepare_map d buf)
  unfolding prepare_map
  prepare_map-Ensures buf h =
      >>=-Ensures Any _ (record { post = λ w r e. tt })
        (elim [ err _ ↦ λ _. pure-Ensures _ _ (λ q. cc) | ok a ↦ λ _. map_buffer-Ensures a buf h ])

  add_framebuffer-Ensures :
      (width height : ℕ) (buf : DumbBuffer)
      → 0 < buf.handle
      → Ensures IsComplete (add_framebuffer d width height buf)
  unfolding add_framebuffer
  add_framebuffer-Ensures width height buf h =
      >>=-Ensures (Answered (λ t. d.add_fb t width height 24 32 buf.pitch buf.handle)) _
        (attempt-Ensures _)
        (elim [
          | err _ ↦ λ _. pure-Ensures _ _ (λ q. cc)
          | ok fb ↦ λ (t, q).
              >>=-Ensures Any _ (record { post = λ w r e. tt })
                λ _ _.
                  prepare_map-Ensures _
                    (h, numbered.fb_pos t width height 24 32 buf.pitch buf.handle fb q)
        ])

  pub create_dumb_buffer-Ensures :
      (width height : ℕ) → Ensures IsComplete (create_dumb_buffer d width height no_buffer)
  unfolding create_dumb_buffer
  create_dumb_buffer-Ensures width height =
      >>=-Ensures (Answered (λ t. d.create_dumb t width height 32)) _ (attempt-Ensures _) (elim [
        | err _ ↦ λ _. pure-Ensures _ _ (λ q. cc)
        | ok c ↦ λ (t, q).
            >>=-Ensures Any _ (record { post = λ w r e. tt })
              λ _ _.
                add_framebuffer-Ensures width height _ (numbered.handle_pos t width height 32 c q)
      ])
