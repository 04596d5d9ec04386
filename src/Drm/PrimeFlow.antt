-- ===== src/Drm/PrimeFlow.antt =====
-- code/examples/drm/dma_buf_prime_flow/userspace/prime_fd_notes.c: a buffer of another device, by its descriptor.
pub mod Closing
mod Tests
use embedded_linux_bsp.Common.{ℕ, ◌*◌, ◌≡◌, true, Bool, ◌==◌, ◌&&◌, List, [], ◌∷◌, negsuc, arith}
use embedded_linux_bsp.Common.World.{
  Result, ok, err, World, Run, pure, fail, ◌>>=◌, ◌>>◌, attempt, ask, hold, give_back,
}
use embedded_linux_bsp.Common.Ledger.{Resource}

-- What the program holds: the card, the descriptor, and the objects of the card.
pub data Object : Type 0 where
  drm_fd : Object
  dma_buf_fd gem_handle fb_id : ℕ → Object

abbrev pub same_object : Object → Object → Bool
same_object drm_fd drm_fd = true
same_object (dma_buf_fd a) (dma_buf_fd b) = a == b
same_object (gem_handle a) (gem_handle b) = a == b
same_object (fb_id a) (fb_id b) = a == b
same_object _ _ = Bool.false

pub same_object_refl : (a : Object) → same_object a a ≡ true
same_object_refl drm_fd = ground arith
same_object_refl (dma_buf_fd a) = ground arith
same_object_refl (gem_handle a) = ground arith
same_object_refl (fb_id a) = ground arith

instance abbrev pub object_resource : Resource Object
object_resource = record { same = same_object; same_refl = same_object_refl }

abbrev pub Action : Type 0 → Type 0
Action = Run Object (Unit {0})

-- The kernel and libdrm, as a parameter.
pub record Device : Type 0 where
  pub open_card : ℕ → Result (Unit {0})
  -- the descriptor
  pub prime_fd_to_handle : ℕ → ℕ → Result ℕ
  -- width, height, format, the handles, the pitches and the offsets of the planes
  pub add_fb2 : ℕ → ℕ → ℕ → ℕ → List ℕ → List ℕ → List ℕ → Result ℕ

-- the code XR24
abbrev pub drm_format_xrgb8888 : ℕ
drm_format_xrgb8888 = 875713112

abbrev pub width : ℕ
width = 800

abbrev pub height : ℕ
height = 480

abbrev pub pitch : ℕ
pitch = width * 4

-- Nothing exports a buffer here.
pub get_external_dma_buf_fd : Result ℕ
get_external_dma_buf_fd = err (negsuc 0)

-- `main` from the framebuffer on: the exit status
pub add_framebuffer : Device → (fd handle : ℕ) → Action ℕ
add_framebuffer d fd handle = do
  made ← attempt (
      ask (λ t.
        d.add_fb2 t width height drm_format_xrgb8888 (handle ∷ 0 ∷ 0 ∷ 0 ∷ [])
          (pitch ∷ 0 ∷ 0 ∷ 0 ∷ []) (0 ∷ 0 ∷ 0 ∷ 0 ∷ [])))
  elim made [
    | err _ ↦ do give_back (dma_buf_fd fd); give_back drm_fd; pure 1
    | ok fb ↦ do
      hold (fb_id fb)
      give_back (fb_id fb)
      give_back (dma_buf_fd fd)
      give_back drm_fd
      pure 0
  ]

-- `main` from the import on
pub import_fd : Device → (fd : ℕ) → Action ℕ
import_fd d fd = do
  imported ← attempt (ask (λ t. d.prime_fd_to_handle t fd))
  elim imported [
    | err _ ↦ do give_back (dma_buf_fd fd); give_back drm_fd; pure 1
    | ok handle ↦ do hold (gem_handle handle); add_framebuffer d fd handle
  ]

-- `main` after the open, on what the producer of the buffer answers
pub with_external : Device → Result ℕ → Action ℕ
with_external d (err _) = do give_back drm_fd; pure 0
with_external d (ok fd) = do hold (dma_buf_fd fd); import_fd d fd

-- `main`: the exit status
pub main : Device → Action ℕ
main d = do
  opened ← attempt (ask d.open_card)
  elim opened [ err _ ↦ pure 1 | ok _ ↦ do hold drm_fd; with_external d get_external_dma_buf_fd ]
