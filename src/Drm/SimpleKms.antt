-- ===== src/Drm/SimpleKms.antt =====
-- code/examples/drm/drm_simple_kms/simple_kms.c: the callbacks and their tables, and probe and remove by the
-- calls that they make.
pub mod Probe
pub mod Setup
mod Tests
use Prim.Native.String.{String}
use embedded_linux_bsp.Common.{ℕ, ◌+◌, List, [], ◌∷◌, ◌++◌, Option, none, some, ℤ, pos}
use embedded_linux_bsp.Common.World.{Result, World, Run, pure, ◌>>=◌, ◌>>◌, ask, emit}
use embedded_linux_bsp.Driver.User.{enomem}
use embedded_linux_bsp.Driver.Core.{DeviceDriver}

abbrev pub my_xres : ℕ
my_xres = 800

abbrev pub my_yres : ℕ
my_yres = 480

-- `drm_display_mode`, without its flags and its name
pub record DisplayMode : Type 0 where
  pub clock : ℕ
  pub hdisplay : ℕ
  pub hsync_start : ℕ
  pub hsync_end : ℕ
  pub htotal : ℕ
  pub vdisplay : ℕ
  pub vsync_start : ℕ
  pub vsync_end : ℕ
  pub vtotal : ℕ

abbrev pub my_mode : DisplayMode
my_mode = record {
  clock = 33300;
  hdisplay = my_xres;
  hsync_start = my_xres + 40;
  hsync_end = my_xres + 40 + 48;
  htotal = my_xres + 40 + 48 + 40;
  vdisplay = my_yres;
  vsync_start = my_yres + 13;
  vsync_end = my_yres + 13 + 3;
  vtotal = my_yres + 13 + 3 + 29;
}

-- What `my_conn_get_modes` changes of a connector.
pub record Connector : Type 0 where
  pub probed_modes : List DisplayMode
  pub width_mm : ℕ
  pub height_mm : ℕ

-- `drm_mode_duplicate` is the kernel's, as a parameter; `none` is a null pointer.
pub my_conn_get_modes : (duplicate : DisplayMode → Option DisplayMode) → Connector → Connector × ℤ
my_conn_get_modes duplicate connector = elim (duplicate my_mode) [
  | none ↦ (connector, enomem)
  | some mode ↦ (
    record { probed_modes = connector.probed_modes ++ mode ∷ []; width_mm = 154; height_mm = 86 },
    pos 1,
  )
]

-- `drm_connector_status`
pub data Status : Type 0 where
  connected disconnected unknown : Status

pub my_conn_detect : Connector → Status
my_conn_detect connector = connected

-- What `my_pipe_update` reads of a framebuffer.
pub record Framebuffer : Type 0 where
  pub width : ℕ
  pub height : ℕ
  pub pitch : ℕ
  pub format : ℕ

-- What the callbacks of the pipe print: they do nothing else.
pub data Report : Type 0 where
  pipe_enable pipe_disable no_framebuffer : Report
  pipe_update : Framebuffer → Report

-- It reports the framebuffer of the new state of the plane.
pub my_pipe_update : Option Framebuffer → Report
my_pipe_update none = no_framebuffer
my_pipe_update (some fb) = pipe_update fb

abbrev pub my_pipe_enable : Report
my_pipe_enable = pipe_enable

abbrev pub my_pipe_disable : Report
my_pipe_disable = pipe_disable

-- The kernel's functions that the tables name beside the driver's own.
pub data Helper : Type 0 where
  gem_prepare_fb connector_reset probe_single_connector_modes connector_cleanup : Helper
  connector_duplicate_state connector_destroy_state : Helper

pub record ConnectorFuncs : Type 0 where
  pub reset : Helper
  pub fill_modes : Helper
  pub detect : Connector → Status
  pub destroy : Helper
  pub atomic_duplicate_state : Helper
  pub atomic_destroy_state : Helper

abbrev pub my_conn_funcs : ConnectorFuncs
my_conn_funcs = record {
  reset = connector_reset;
  fill_modes = probe_single_connector_modes;
  detect = my_conn_detect;
  destroy = connector_cleanup;
  atomic_duplicate_state = connector_duplicate_state;
  atomic_destroy_state = connector_destroy_state;
}

pub record PipeFuncs : Type 0 where
  pub enable : Report
  pub disable : Report
  pub update : Option Framebuffer → Report
  pub prepare_fb : Helper

abbrev pub my_pipe_funcs : PipeFuncs
my_pipe_funcs = record {
  enable = my_pipe_enable;
  disable = my_pipe_disable;
  update = my_pipe_update;
  prepare_fb = gem_prepare_fb;
}

-- the bits of `driver_features`
pub data Feature : Type 0 where
  gem modeset atomic : Feature

-- `struct drm_driver`, less the operations of the GEM helpers
pub record DrmDriver : Type 0 where
  pub driver_features : List Feature
  pub name : String
  pub desc : String
  pub date : String
  pub major : ℕ
  pub minor : ℕ

abbrev pub my_drm_driver : DrmDriver
my_drm_driver = record {
  driver_features = gem ∷ modeset ∷ atomic ∷ [];
  name = "my_simple_kms";
  desc = "Minimal DRM simple KMS skeleton";
  date = "2026";
  major = 1;
  minor = 0;
}

-- the codes XR24 and AR24
abbrev pub my_formats : List ℕ
my_formats = 875713112 ∷ 875713089 ∷ []

-- What probe and remove do, in the order in which they do it.
pub data Call : Type 0 where
  devm_drm_dev_alloc platform_set_drvdata drmm_mode_config_init : Call
  -- the least and the greatest width, and of the height
  mode_config : (min_width max_width min_height max_height : ℕ) → Call
  connector_helper_add connector_init : Call
  display_pipe_init : (formats : List ℕ) → Call
  mode_config_reset dev_register : Call
  fbdev_generic_setup : (bpp : ℕ) → Call
  dev_unplug : Call

-- The kernel's answers to those that can fail, as a parameter.
pub record Kernel : Type 0 where
  pub devm_drm_dev_alloc : ℕ → Result (Unit {0})
  pub drmm_mode_config_init : ℕ → Result (Unit {0})
  pub connector_init : ℕ → Result (Unit {0})
  pub display_pipe_init : ℕ → Result (Unit {0})
  pub dev_register : ℕ → Result (Unit {0})

abbrev pub Action : Type 0
Action = Run (Unit {0}) Call (Unit {0})

abbrev pub attempt_call : Call → (ℕ → Result (Unit {0})) → Action
attempt_call c answer = emit c >> ask answer

pub my_drm_probe : Kernel → Action
my_drm_probe k = do
  attempt_call devm_drm_dev_alloc k.devm_drm_dev_alloc
  emit platform_set_drvdata
  attempt_call drmm_mode_config_init k.drmm_mode_config_init
  emit (mode_config my_xres my_xres my_yres my_yres)
  emit connector_helper_add
  attempt_call connector_init k.connector_init
  attempt_call (display_pipe_init my_formats) k.display_pipe_init
  emit mode_config_reset
  attempt_call dev_register k.dev_register
  emit (fbdev_generic_setup 32)

pub my_drm_remove : Action
my_drm_remove = emit dev_unplug

abbrev pub my_of_match : List String
my_of_match = "example,my-simple-kms" ∷ []

abbrev pub my_platform_driver : Kernel → DeviceDriver (Unit {0}) Call (Unit {0})
my_platform_driver k = record {
  name = my_drm_driver.name;
  of_match_table = my_of_match;
  probe = my_drm_probe k;
  remove = my_drm_remove;
}
