-- ===== src/Drm/DumbFlow.antt =====
-- code/examples/drm/dumb_buffer_flow/userspace/dumb_buffer.c: a dumb buffer that is made, filled with white and
-- made a framebuffer, and not shown.
pub mod Status
mod Tests
use embedded_linux_bsp.Common.{ℕ, ◌+◌, ◌%◌, ltb, leb, ◌&&◌, List, [], ◌∷◌, if◌then◌else◌}
use embedded_linux_bsp.Common.World.{
  Result, ok, err, Run, pure, ◌>>=◌, ◌>>◌, attempt, ask, emit, hold, give_back,
}
use embedded_linux_bsp.Drm.Env.{
  Device, Created, Object, card, gem, framebuffer, mapping, object_resource,
}
use embedded_linux_bsp.Drm.Fill.{Memory}

-- `memset(map, value, size)`
pub record Filled : Type 0 where
  pub map : ℕ
  pub value : ℕ
  pub size : ℕ

-- What it does to the memory of the process.
pub memset : Filled → Memory → Memory
memset f m a = if leb f.map a && ltb a (f.map + f.size) then f.value % 256 else m a

abbrev pub Action : Type 0 → Type 0
Action = Run Object Filled

-- `drmModeAddFB2`, as a parameter: by the moment, width, height, format, and the handles, pitches and
-- offsets of the planes
abbrev pub AddFb2 : Type 0
AddFb2 = ℕ → ℕ → ℕ → ℕ → List ℕ → List ℕ → List ℕ → Result ℕ

abbrev pub drm_format_xrgb8888 : ℕ
drm_format_xrgb8888 = 875713112

module _ (d : Device) (add_fb2 : AddFb2) where
  -- `main` from the mapping on: the exit status
  pub fill_and_add : Created → (map : ℕ) → Action ℕ
  fill_and_add buf map = do
    emit (record { map = map; value = 0xff; size = buf.size })
    made ← attempt (
        ask (λ t.
          add_fb2 t 800 480 drm_format_xrgb8888 (buf.handle ∷ 0 ∷ 0 ∷ 0 ∷ [])
            (buf.pitch ∷ 0 ∷ 0 ∷ 0 ∷ []) (0 ∷ 0 ∷ 0 ∷ 0 ∷ [])))
    elim made [
      | err _ ↦ pure 1
      | ok fb ↦ do hold (framebuffer fb); give_back (mapping map); give_back card; pure 0
    ]

  -- `main` from the creation on
  pub map_created : Created → Action ℕ
  map_created buf = do
    offset ← attempt (ask (λ t. d.map_dumb t buf.handle))
    elim offset [
      | err _ ↦ pure 1
      | ok off ↦ do
        mapped ← attempt (ask (λ t. d.mmap t buf.size off))
        elim mapped [ err _ ↦ pure 1 | ok map ↦ do hold (mapping map); fill_and_add buf map ]
    ]

  -- `main`: the exit status
  pub main : Action ℕ
  main = do
    opened ← attempt (ask d.open_card)
    elim opened [
      | err _ ↦ pure 1
      | ok _ ↦ do
        hold card
        created ← attempt (ask (λ t. d.create_dumb t 800 480 32))
        elim created [ err _ ↦ pure 1 | ok buf ↦ do hold (gem buf.handle); map_created buf ]
    ]
