-- ===== src/Drm/Dumb.antt =====
-- `struct dumb_buffer`, `create_dumb_buffer` and `destroy_dumb_buffer` of
-- code/examples/drm/drm_atomic_commit_flow/userspace/atomic_modeset_minimal.c.
pub mod Balance
pub mod Whole
pub mod Complete
pub mod Origin
pub mod Other
pub mod Silent
pub mod Made
pub mod Refused
use embedded_linux_bsp.Common.{ℕ, ◌≡◌, true, false, Bool, ◌==◌, if◌then◌else◌, ltb, ℤ, pos, negsuc}
use embedded_linux_bsp.Common.World.{
  Result, ok, err, pure, ◌>>=◌, ◌>>◌, attempt, ask, hold, give_back,
}
use embedded_linux_bsp.Drm.Env.{Device, Action, gem, framebuffer, mapping, object_resource}

-- `uint8_t *map`: `at` has an address that `mmap` gave, which is never 0, for without a hint the kernel maps nothing at
-- the lowest page; so `unmap` finds it as `buf->map && buf->map != MAP_FAILED` does
pub data Map : Type 0 where
  null : Map
  map_failed : Map
  at : ℕ → Map

pub record DumbBuffer : Type 0 where
  pub handle : ℕ
  pub pitch : ℕ
  pub size : ℕ
  pub map : Map
  pub fb_id : ℕ

-- `struct dumb_buffer buf = {0}`
abbrev pub no_buffer : DumbBuffer
no_buffer = record { handle = 0; pitch = 0; size = 0; map = null; fb_id = 0 }

module _ (d : Device) where
  -- from the `mmap` on
  map_buffer : ℕ → DumbBuffer → Action (DumbBuffer × ℤ)
  map_buffer offset buf = do
    mapped ← attempt (ask (λ t. d.mmap t buf.size offset))
    elim mapped [
      | err _ ↦ pure (record buf { map = map_failed }, negsuc 0)
      | ok address ↦ do hold (mapping address); pure (record buf { map = at address }, pos 0)
    ]

  -- from `DRM_IOCTL_MODE_MAP_DUMB` on
  prepare_map : DumbBuffer → Action (DumbBuffer × ℤ)
  prepare_map buf = do
    answer ← attempt (ask (λ t. d.map_dumb t buf.handle))
    elim answer [ err _ ↦ pure (buf, negsuc 0) | ok offset ↦ map_buffer offset buf ]

  -- from `drmModeAddFB` on
  add_framebuffer : ℕ → ℕ → DumbBuffer → Action (DumbBuffer × ℤ)
  add_framebuffer width height buf = do
    added ← attempt (ask (λ t. d.add_fb t width height 24 32 buf.pitch buf.handle))
    elim added [
      | err _ ↦ pure (buf, negsuc 0)
      | ok fb ↦ do hold (framebuffer fb); prepare_map (record buf { fb_id = fb })
    ]

  -- The buffer as the call leaves it, and the return value: a failure half way leaves what was
  -- created before it in the buffer.
  pub create_dumb_buffer : ℕ → ℕ → DumbBuffer → Action (DumbBuffer × ℤ)
  create_dumb_buffer width height buf = do
    answer ← attempt (ask (λ t. d.create_dumb t width height 32))
    elim answer [
      | err _ ↦ pure (buf, negsuc 0)
      | ok creq ↦ do
        hold (gem creq.handle)
        add_framebuffer width height
            (record buf { handle = creq.handle; pitch = creq.pitch; size = creq.size })
    ]

-- `munmap`, if there is a mapping
unfoldable pub unmap : Map → Action (Unit {0})
unmap null = pure tt
unmap map_failed = pure tt
unmap (at address) = give_back (mapping address)

pub destroy_dumb_buffer : DumbBuffer → Action (Unit {0})
destroy_dumb_buffer buf = do
  unmap buf.map
  if ltb 0 buf.fb_id then give_back (framebuffer buf.fb_id) else pure tt
  if ltb 0 buf.handle then give_back (gem buf.handle) else pure tt
