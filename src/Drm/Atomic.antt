-- ===== src/Drm/Atomic.antt =====
-- code/examples/drm/drm_atomic_commit_flow/userspace/atomic_modeset_minimal.c: the request, and `main`; its
-- look-ups are in Planes.
pub mod Planes
pub mod Balance
pub mod PropId
pub mod Lookup
pub mod Request
pub mod Silent
pub mod Missing
pub mod Left
pub mod Named
pub mod Committed
pub mod Shown
use Prim.Native.String.{String}
use text.Mathlib.Text.{◌==◌ as str_eq}
use embedded_linux_bsp.Common.{
  ℕ, zero, suc, ◌+◌, ◌-◌, ◌*◌, ◌/◌, ◌%◌, ◌^◌, true, false, Bool, ◌&&◌, ◌||◌, ◌==◌, ltb, Option,
  none, some, List, [], ◌∷◌, ◌++◌, if◌then◌else◌, nonzero,
}
use embedded_linux_bsp.Common.World.{
  Result, ok, err, pure, fail, ◌>>=◌, ◌>>◌, attempt, ask, emit, hold, give_back, bracket, closing,
}
use embedded_linux_bsp.Drm.Env.{
  Device, Action, Session, Mode, Plane, Property, ObjectType, Resources, card, resources,
  plane_resources, request, plane, properties, property, blob, object_resource, Call, minus_one,
}
use embedded_linux_bsp.Drm.Dumb.{DumbBuffer, no_buffer, create_dumb_buffer, destroy_dumb_buffer}
use embedded_linux_bsp.Drm.Connector.{Target, find_connector_crtc}
unfoldable pub use embedded_linux_bsp.Drm.Atomic.Planes.{
  matching_id, index_of, can_drive, plane_type_primary, has_primary, scan_props, get_prop_id,
  is_primary, search_planes, search_at, find_primary_plane,
}

pub record ObjectProps : Type 0 where
  pub crtc_id : ℕ
  pub mode_id : ℕ
  pub active : ℕ
  pub fb_id : ℕ
  pub src_x : ℕ
  pub src_y : ℕ
  pub src_w : ℕ
  pub src_h : ℕ
  pub crtc_x : ℕ
  pub crtc_y : ℕ
  pub crtc_w : ℕ
  pub crtc_h : ℕ

-- `x << 16` of a 32-bit `int` in two's complement, converted to `uint64_t`
pub shift_16 : ℕ → ℕ
shift_16 x =
    let low = x * 2 ^ 16 % 2 ^ 32 in if ltb low (2 ^ 31) then low else low + 2 ^ 64 - 2 ^ 32

-- one item of a request
abbrev pub Item : Type 0
Item = ℕ × ℕ × ℕ

-- The items that `main` adds, in order.
pub wanted :
    (target : Target) (plane_id blob_id conn_crtc_prop : ℕ) → ObjectProps → DumbBuffer → List Item
unfolding shift_16
wanted target plane_id blob_id conn_crtc_prop props buf =
    (target.conn_id, conn_crtc_prop, target.crtc_id)
    ∷ (target.crtc_id, props.mode_id, blob_id)
    ∷ (target.crtc_id, props.active, 1)
    ∷ (plane_id, props.fb_id, buf.fb_id)
    ∷ (plane_id, props.crtc_id, target.crtc_id)
    ∷ (plane_id, props.src_x, 0)
    ∷ (plane_id, props.src_y, 0)
    ∷ (plane_id, props.src_w, shift_16 target.mode.hdisplay)
    ∷ (plane_id, props.src_h, shift_16 target.mode.vdisplay)
    ∷ (plane_id, props.crtc_x, 0)
    ∷ (plane_id, props.crtc_y, 0)
    ∷ (plane_id, props.crtc_w, target.mode.hdisplay)
    ∷ (plane_id, props.crtc_h, target.mode.vdisplay)
    ∷ []

module _ (d : Device) where
  -- `p->crtc_id` is written twice: the connector's property is lost to the plane's.
  pub load_props : ℕ → ℕ → ℕ → Action ObjectProps
  load_props conn_id crtc_id plane_id = do
    get_prop_id d conn_id ObjectType.connector "CRTC_ID" >>= λ _. pure tt
    mode_id ← get_prop_id d crtc_id ObjectType.crtc "MODE_ID"
    active ← get_prop_id d crtc_id ObjectType.crtc "ACTIVE"
    fb_id ← get_prop_id d plane_id ObjectType.plane "FB_ID"
    plane_crtc ← get_prop_id d plane_id ObjectType.plane "CRTC_ID"
    src_x ← get_prop_id d plane_id ObjectType.plane "SRC_X"
    src_y ← get_prop_id d plane_id ObjectType.plane "SRC_Y"
    src_w ← get_prop_id d plane_id ObjectType.plane "SRC_W"
    src_h ← get_prop_id d plane_id ObjectType.plane "SRC_H"
    crtc_x ← get_prop_id d plane_id ObjectType.plane "CRTC_X"
    crtc_y ← get_prop_id d plane_id ObjectType.plane "CRTC_Y"
    crtc_w ← get_prop_id d plane_id ObjectType.plane "CRTC_W"
    crtc_h ← get_prop_id d plane_id ObjectType.plane "CRTC_H"
    pure (record {
      crtc_id = plane_crtc;
      mode_id = mode_id;
      active = active;
      fb_id = fb_id;
      src_x = src_x;
      src_y = src_y;
      src_w = src_w;
      src_h = src_h;
      crtc_x = crtc_x;
      crtc_y = crtc_y;
      crtc_w = crtc_w;
      crtc_h = crtc_h;
    })

  -- The calls of `drmModeAtomicAddProperty`: their answers are not looked at, and an item whose call
  -- fails is not in the request.
  pub add_all : List Item → List Item → Action (List Item)
  add_all [] req = pure req
  add_all ((object, prop, value) ∷ rest) req = do
    added ← attempt (ask (λ t. d.atomic_add_property t object prop value))
    add_all rest (elim added [ err _ ↦ req | ok _ ↦ req ++ (object, prop, value) ∷ [] ])

  -- all the calls of `drmModeAtomicAddProperty`
  pub build_request : Target → ℕ → ℕ → ObjectProps → DumbBuffer → Action (List Item)
  build_request target plane_id blob_id props buf = do
    conn_crtc_prop ← get_prop_id d target.conn_id ObjectType.connector "CRTC_ID"
    add_all (wanted target plane_id blob_id conn_crtc_prop props buf) []

  -- `drmModeAtomicCommit`
  commit : List Item → Action (Unit {0})
  commit req = do emit (Call.commit req); ask (λ t. d.atomic_commit t req)

  -- from `drmModeAtomicAlloc` to the label `err_blob`
  pub commit_request : Target → ℕ → ℕ → DumbBuffer → Action (Unit {0})
  commit_request target plane_id blob_id buf = do
    props ← load_props target.conn_id target.crtc_id plane_id
    ask d.atomic_alloc
    bracket request (do req ← build_request target plane_id blob_id props buf; commit req)

  -- from the blob to the label `err_destroy`; `if (blob_id)` at the label `err_blob`
  pub show : Target → ℕ → DumbBuffer → Action (Unit {0})
  show target plane_id buf = do
    emit (Call.fill_color buf.fb_id target.mode.hdisplay target.mode.vdisplay 0x0000ff00)
    blob_id ← ask (λ t. d.create_property_blob t target.mode)
    elim (ltb 0 blob_id) [
      | true ↦ bracket (blob blob_id) (commit_request target plane_id blob_id buf)
      | false ↦ commit_request target plane_id blob_id buf
    ]

  -- from `create_dumb_buffer` on; its failure goes to the label `err_close`
  pub render : Target → ℕ → Action (Unit {0})
  render target plane_id = do
    created ← create_dumb_buffer d target.mode.hdisplay target.mode.vdisplay no_buffer
    elim (nonzero created.1) [
      | true ↦ minus_one
      | false ↦ do shown ← attempt (show target plane_id created.0); destroy_dumb_buffer created.0
    ]

  -- between the `open` and the label `err_close`
  pub modeset : Action (Unit {0})
  modeset = do
    target ← find_connector_crtc d
    plane_id ← find_primary_plane d target.crtc_id
    render target plane_id

  -- `main`, with the exit status: every error after the `open` still exits with 0.
  pub main : Action ℕ
  main = do
    opened ← attempt (ask d.open_card)
    elim opened [
      | err _ ↦ pure 1
      | ok _ ↦ do
        bracket card (do
          universal ← attempt (ask (λ t. d.set_client_cap t 2))
          atomic ← attempt (ask (λ t. d.set_client_cap t 3))
          done ← attempt modeset
          pure tt)
        pure 0
    ]
