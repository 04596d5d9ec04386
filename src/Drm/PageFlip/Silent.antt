-- ===== src/Drm/PageFlip/Silent.antt =====
-- The destruction of page_flip_minimal.c, which touches no screen.
use embedded_linux_bsp.Common.{true, false, Bool, ltb, if◌then◌else◌}
use embedded_linux_bsp.Common.World.{pure, ◌>>◌, give_back}
use embedded_linux_bsp.Common.World.Puts.{
  IsSilent, >>=-IsSilent, if-IsSilent, pure-IsSilent, give_back-IsSilent,
}
use embedded_linux_bsp.Drm.Env.{Device, Action, gem, framebuffer, object_resource}
use embedded_linux_bsp.Drm.Dumb.{DumbBuffer, no_buffer, unmap}
use embedded_linux_bsp.Drm.Dumb.Silent.{unmap-IsSilent}
use embedded_linux_bsp.Drm.PageFlip.{destroy_dumb_buffer, destroy_both}

destroy_dumb_buffer-IsSilent : (b : DumbBuffer) → IsSilent (destroy_dumb_buffer b)
unfolding destroy_dumb_buffer
destroy_dumb_buffer-IsSilent b = choose (ltb 0 b.handle)
  where
    choose :
        (c : Bool)
        → IsSilent (
            let act : Action DumbBuffer = elim c [
              | false ↦ pure b
              | true ↦ do
                unmap b.map
                if ltb 0 b.fb_id then give_back (framebuffer b.fb_id) else pure tt
                give_back (gem b.handle)
                pure no_buffer
            ] in
            act)
    choose false = pure-IsSilent _
    choose true = >>=-IsSilent (unmap-IsSilent b.map) λ _.
        >>=-IsSilent (if-IsSilent (ltb 0 b.fb_id) (give_back-IsSilent _) (pure-IsSilent _))
          λ _. >>=-IsSilent (give_back-IsSilent _) λ _. pure-IsSilent _

pub destroy_both-IsSilent : (d : Device) (b₀ b₁ : DumbBuffer) → IsSilent (destroy_both d b₀ b₁)
unfolding destroy_both
destroy_both-IsSilent d b₀ b₁ =
    >>=-IsSilent (destroy_dumb_buffer-IsSilent b₀)
      λ _. >>=-IsSilent (destroy_dumb_buffer-IsSilent b₁) λ _. pure-IsSilent true
