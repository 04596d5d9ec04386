-- ===== src/Drm/Dumb/Silent.antt =====
-- The creation and the destruction of a buffer, as far as the screen is concerned.
use embedded_linux_bsp.Common.{ℕ, ltb}
use embedded_linux_bsp.Common.World.{ok, err}
use embedded_linux_bsp.Common.World.Puts.{
  IsSilent, >>=-IsSilent, if-IsSilent, ask-IsSilent, attempt-IsSilent, pure-IsSilent, hold-IsSilent,
  give_back-IsSilent,
}
use embedded_linux_bsp.Drm.Env.{Device, object_resource}
use embedded_linux_bsp.Drm.Dumb.{
  Map, null, map_failed, at, DumbBuffer, unmap, create_dumb_buffer, add_framebuffer, prepare_map,
  map_buffer, destroy_dumb_buffer,
}

pub unmap-IsSilent : (m : Map) → IsSilent (unmap m)
unfolding unmap
unmap-IsSilent null = pure-IsSilent _
unmap-IsSilent map_failed = pure-IsSilent _
unmap-IsSilent (at a) = give_back-IsSilent _

pub destroy_dumb_buffer-IsSilent : (b : DumbBuffer) → IsSilent (destroy_dumb_buffer b)
unfolding destroy_dumb_buffer
destroy_dumb_buffer-IsSilent b = >>=-IsSilent (unmap-IsSilent b.map) λ _.
    >>=-IsSilent (if-IsSilent (ltb 0 b.fb_id) (give_back-IsSilent _) (pure-IsSilent _))
      λ _. if-IsSilent (ltb 0 b.handle) (give_back-IsSilent _) (pure-IsSilent _)

module _ (d : Device) where
  map_buffer-IsSilent : (offset : ℕ) (b : DumbBuffer) → IsSilent (map_buffer d offset b)
  unfolding map_buffer
  map_buffer-IsSilent offset b = >>=-IsSilent (attempt-IsSilent (ask-IsSilent _)) (elim [
    | err _ ↦ pure-IsSilent _
    | ok a ↦ >>=-IsSilent (hold-IsSilent _) λ _. pure-IsSilent _
  ])

  prepare_map-IsSilent : (b : DumbBuffer) → IsSilent (prepare_map d b)
  unfolding prepare_map
  prepare_map-IsSilent b =
      >>=-IsSilent (attempt-IsSilent (ask-IsSilent _))
        (elim [ err _ ↦ pure-IsSilent _ | ok offset ↦ map_buffer-IsSilent offset b ])

  add_framebuffer-IsSilent :
      (width height : ℕ) (b : DumbBuffer) → IsSilent (add_framebuffer d width height b)
  unfolding add_framebuffer
  add_framebuffer-IsSilent width height b = >>=-IsSilent (attempt-IsSilent (ask-IsSilent _)) (elim [
    | err _ ↦ pure-IsSilent _
    | ok fb ↦ >>=-IsSilent (hold-IsSilent _) λ _. prepare_map-IsSilent _
  ])

  pub create_dumb_buffer-IsSilent :
      (width height : ℕ) (b : DumbBuffer) → IsSilent (create_dumb_buffer d width height b)
  unfolding create_dumb_buffer
  create_dumb_buffer-IsSilent width height b =
      >>=-IsSilent (attempt-IsSilent (ask-IsSilent _)) (elim [
        | err _ ↦ pure-IsSilent _
        | ok c ↦ >>=-IsSilent (hold-IsSilent _) λ _. add_framebuffer-IsSilent width height _
      ])
