-- ===== src/Driver/Panel.antt =====
-- code/examples/drm/drm_mipi_dsi_panel_flow/panel_dsi_minimal.c: the life of a DSI panel.
pub mod History
pub mod Probe
use Prim.Native.String.{String}
use embedded_linux_bsp.Common.{
  ℕ, ◌+◌, ◌≡◌, refl, true, false, Bool, not, ◌==◌, List, [], ◌∷◌, ◌++◌, ℤ, pos, if◌then◌else◌,
  arith,
}
use embedded_linux_bsp.Common.World.{
  Result, ok, err, World, Run, pure, ◌>>=◌, ◌>>◌, attempt, ask, hold, give_back, or_undo,
}
use embedded_linux_bsp.Common.Ledger.{Resource}
use embedded_linux_bsp.Driver.User.{enomem}
use embedded_linux_bsp.Driver.Core.{DeviceDriver}

-- `struct minimal_panel`, less its pointers; `slept` adds up the milliseconds of `msleep`.
pub record MinimalPanel : Type 0 where
  pub prepared : Bool
  pub enabled : Bool
  pub slept : ℕ

-- zeroed by `devm_kzalloc`
abbrev pub fresh_panel : MinimalPanel
fresh_panel = record { prepared = false; enabled = false; slept = 0 }

-- Each of the four returns 0.
pub minimal_panel_prepare : MinimalPanel → MinimalPanel × ℤ
minimal_panel_prepare ctx =
    if ctx.prepared
    then (ctx, pos 0)
    else (record ctx { prepared = true; slept = ctx.slept + 120 }, pos 0)

pub minimal_panel_enable : MinimalPanel → MinimalPanel × ℤ
minimal_panel_enable ctx =
    if ctx.enabled then (ctx, pos 0) else (record ctx { enabled = true }, pos 0)

pub minimal_panel_disable : MinimalPanel → MinimalPanel × ℤ
minimal_panel_disable ctx =
    if not ctx.enabled then (ctx, pos 0) else (record ctx { enabled = false }, pos 0)

pub minimal_panel_unprepare : MinimalPanel → MinimalPanel × ℤ
minimal_panel_unprepare ctx =
    if not ctx.prepared
    then (ctx, pos 0)
    else (record ctx { prepared = false; slept = ctx.slept + 120 }, pos 0)

-- `struct drm_display_mode`, the numbers that the driver fills in
pub record DisplayMode : Type 0 where
  pub clock : ℕ
  pub hdisplay : ℕ
  pub hsync_start : ℕ
  pub hsync_end : ℕ
  pub htotal : ℕ
  pub vdisplay : ℕ
  pub vsync_start : ℕ
  pub vsync_end : ℕ
  pub vtotal : ℕ
  pub width_mm : ℕ
  pub height_mm : ℕ

abbrev pub minimal_mode : DisplayMode
minimal_mode = record {
  clock = 33300;
  hdisplay = 800;
  hsync_start = 800 + 40;
  hsync_end = 800 + 40 + 48;
  htotal = 800 + 40 + 48 + 40;
  vdisplay = 480;
  vsync_start = 480 + 13;
  vsync_end = 480 + 13 + 3;
  vtotal = 480 + 13 + 3 + 29;
  width_mm = 154;
  height_mm = 86;
}

-- The modes that were added to a connector, and its size.
pub record Connector : Type 0 where
  pub probed : List DisplayMode
  pub width_mm : ℕ
  pub height_mm : ℕ

-- `duplicated` says whether `drm_mode_duplicate` found memory.
pub minimal_panel_get_modes : Bool → Connector → Connector × ℤ
minimal_panel_get_modes duplicated connector = if not duplicated then (connector, enomem) else (
  record connector {
    probed = connector.probed ++ minimal_mode ∷ [];
    width_mm = minimal_mode.width_mm;
    height_mm = minimal_mode.height_mm;
  },
  pos 1,
)

-- `struct drm_panel_funcs`
pub record PanelFuncs : Type 0 where
  pub prepare : MinimalPanel → MinimalPanel × ℤ
  pub enable : MinimalPanel → MinimalPanel × ℤ
  pub disable : MinimalPanel → MinimalPanel × ℤ
  pub unprepare : MinimalPanel → MinimalPanel × ℤ
  pub get_modes : Bool → Connector → Connector × ℤ

abbrev pub minimal_panel_funcs : PanelFuncs
minimal_panel_funcs = record {
  prepare = minimal_panel_prepare;
  enable = minimal_panel_enable;
  disable = minimal_panel_disable;
  unprepare = minimal_panel_unprepare;
  get_modes = minimal_panel_get_modes;
}

-- The entries of `minimal_panel_funcs` that change the panel.
pub data Op : Type 0 where
  prepare enable disable unprepare : Op

pub apply : Op → MinimalPanel → MinimalPanel
unfolding minimal_panel_prepare minimal_panel_enable minimal_panel_disable minimal_panel_unprepare
apply prepare ctx = (minimal_panel_funcs.prepare ctx).0
apply enable ctx = (minimal_panel_funcs.enable ctx).0
apply disable ctx = (minimal_panel_funcs.disable ctx).0
apply unprepare ctx = (minimal_panel_funcs.unprepare ctx).0

-- What the driver holds: the panel on the list of panels, and the attachment to the DSI host.
pub data Object : Type 0 where
  panel attachment : Object

abbrev pub same_object : Object → Object → Bool
same_object panel panel = true
same_object panel attachment = false
same_object attachment panel = false
same_object attachment attachment = true

pub same_object_refl : (a : Object) → same_object a a ≡ true
same_object_refl panel = refl
same_object_refl attachment = refl

instance abbrev pub object_resource : Resource Object
object_resource = record { same = same_object; same_refl = same_object_refl }

abbrev pub Session : Type 0
Session = World Object (Unit {0})

abbrev pub Action : Type 0 → Type 0
Action = Run Object (Unit {0})

-- `enum mipi_dsi_pixel_format`
pub data PixelFormat : Type 0 where
  rgb888 rgb666 rgb666_packed rgb565 : PixelFormat

-- the flags of `mode_flags` that the driver sets
pub data ModeFlag : Type 0 where
  video video_sync_pulse lpm : ModeFlag

-- What `minimal_panel_probe` writes into the DSI device.
pub record DsiConfig : Type 0 where
  pub lanes : ℕ
  pub format : PixelFormat
  pub mode_flags : List ModeFlag
  pub drvdata : MinimalPanel

abbrev pub dsi_config : DsiConfig
dsi_config = record {
  lanes = 4;
  format = rgb888;
  mode_flags = video ∷ video_sync_pulse ∷ lpm ∷ [];
  drvdata = fresh_panel;
}

-- The kernel's answers, as a parameter.
pub record Kernel : Type 0 where
  pub devm_kzalloc : ℕ → Result (Unit {0})
  pub mipi_dsi_attach : ℕ → Result (Unit {0})

-- The memory of `devm_kzalloc` is the device core's to free.
pub minimal_panel_probe : Kernel → Action DsiConfig
minimal_panel_probe k = do
  ask k.devm_kzalloc
  or_undo panel (do ask k.mipi_dsi_attach; hold attachment; pure dsi_config)

pub minimal_panel_remove : Action (Unit {0})
minimal_panel_remove = do give_back attachment; give_back panel

abbrev pub minimal_panel_of_match : List String
minimal_panel_of_match = "example,panel-dsi-minimal" ∷ []

abbrev pub minimal_panel_driver : Kernel → DeviceDriver Object (Unit {0}) DsiConfig
minimal_panel_driver k = record {
  name = "panel_dsi_minimal";
  of_match_table = minimal_panel_of_match;
  probe = minimal_panel_probe k;
  remove = minimal_panel_remove;
}
