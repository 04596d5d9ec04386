-- ===== src/Drm/Env.antt =====
-- What the userspace programs of code/examples/drm run on: the kernel's DRM interface and libdrm, as
-- a parameter, the objects that a program holds of them, and the calls that reach the screen.
use Prim.Native.String.{String}
use embedded_linux_bsp.Common.{ℕ, ◌≡◌, Bool, true, ◌&&◌, List, ◌==◌, arith, negsuc}
use embedded_linux_bsp.Common.World.{Result, World, Run, fail}
use embedded_linux_bsp.Common.Ledger.{Resource}

-- `drmModeModeInfo`, as far as the programs read it; both are `uint16_t`.
pub record Mode : Type 0 where
  pub hdisplay : ℕ
  pub vdisplay : ℕ

-- `drmModeConnection`
pub data Connection : Type 0 where
  connected disconnected unknown : Connection

pub record Connector : Type 0 where
  pub connector_id : ℕ
  pub encoder_id : ℕ
  pub connection : Connection
  pub modes : List Mode

pub record Encoder : Type 0 where
  pub encoder_id : ℕ
  pub crtc_id : ℕ

pub record Resources : Type 0 where
  pub connectors : List ℕ
  pub crtcs : List ℕ

pub record Plane : Type 0 where
  pub plane_id : ℕ
  pub possible_crtcs : ℕ

pub record Property : Type 0 where
  pub prop_id : ℕ
  pub name : String

pub data ObjectType : Type 0 where
  crtc connector plane : ObjectType

-- What `DRM_IOCTL_MODE_CREATE_DUMB` answers.
pub record Created : Type 0 where
  pub handle : ℕ
  pub pitch : ℕ
  pub size : ℕ

-- The kernel and libdrm: not part of this repository. The first argument of each call is the
-- moment, so that one call may answer differently each time; `err` stands for a null pointer, a
-- nonzero or negative answer, or `MAP_FAILED`.
pub record Device : Type 0 where
  pub open_card : ℕ → Result (Unit {0})
  pub set_client_cap : ℕ → ℕ → Result (Unit {0})
  pub get_resources : ℕ → Result Resources
  pub get_connector : ℕ → ℕ → Result Connector
  pub get_encoder : ℕ → ℕ → Result Encoder
  pub get_plane_resources : ℕ → Result (List ℕ)
  pub get_plane : ℕ → ℕ → Result Plane
  -- the identifiers of the properties of an object, with their values
  pub get_object_properties : ℕ → ℕ → ObjectType → Result (List (ℕ × ℕ))
  pub get_property : ℕ → ℕ → Result Property
  -- width, height, bits per pixel
  pub create_dumb : ℕ → ℕ → ℕ → ℕ → Result Created
  -- width, height, depth, bits per pixel, pitch, handle
  pub add_fb : ℕ → ℕ → ℕ → ℕ → ℕ → ℕ → ℕ → Result ℕ
  pub map_dumb : ℕ → ℕ → Result ℕ
  -- size, offset
  pub mmap : ℕ → ℕ → ℕ → Result ℕ
  pub create_property_blob : ℕ → Mode → Result ℕ
  pub atomic_alloc : ℕ → Result (Unit {0})
  -- object, property, value
  pub atomic_add_property : ℕ → ℕ → ℕ → ℕ → Result (Unit {0})
  pub atomic_commit : ℕ → List (ℕ × ℕ × ℕ) → Result (Unit {0})
  -- CRTC, framebuffer, connector, mode
  pub set_crtc : ℕ → ℕ → ℕ → ℕ → Mode → Result (Unit {0})
  -- CRTC, framebuffer
  pub page_flip : ℕ → ℕ → ℕ → Result (Unit {0})

-- What a program must give back.
pub data Object : Type 0 where
  card resources plane_resources request : Object
  connector encoder plane properties property gem framebuffer mapping blob : ℕ → Object

abbrev pub kind : Object → ℕ
kind card = 0
kind resources = 1
kind plane_resources = 2
kind request = 3
kind (connector _) = 4
kind (encoder _) = 5
kind (plane _) = 6
kind (properties _) = 7
kind (property _) = 8
kind (gem _) = 9
kind (framebuffer _) = 10
kind (mapping _) = 11
kind (blob _) = 12

abbrev pub identifier : Object → ℕ
identifier (connector n) = n
identifier (encoder n) = n
identifier (plane n) = n
identifier (properties n) = n
identifier (property n) = n
identifier (gem n) = n
identifier (framebuffer n) = n
identifier (mapping n) = n
identifier (blob n) = n
identifier _ = 0

abbrev pub same_object : Object → Object → Bool
same_object a b = kind a == kind b && identifier a == identifier b

pub same_object_refl : (a : Object) → same_object a a ≡ true
same_object_refl a = ground arith

instance abbrev pub object_resource : Resource Object
object_resource = record { same = same_object; same_refl = same_object_refl }

-- The calls that change what is on the screen or in a buffer, with their arguments.
pub data Call : Type 0 where
  -- framebuffer of the buffer, width, height, colour
  fill_color : ℕ → ℕ → ℕ → ℕ → Call
  -- framebuffer
  set_crtc : ℕ → Call
  page_flip : ℕ → Call
  -- a page flip event was handled
  flip_done : Call
  -- object, property, value of each item
  commit : List (ℕ × ℕ × ℕ) → Call

abbrev pub Session : Type 0
Session = World Object Call

abbrev pub Action : Type 0 → Type 0
Action = Run Object Call

-- the return value -1
abbrev pub minus_one : {A : Type 0} → Action A
minus_one = fail (negsuc 0)
