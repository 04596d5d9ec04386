-- ===== src/Drm/GemShmem.antt =====
-- code/examples/drm/drm_gem_shmem_flow/gem_shmem_skeleton.c: its table, and its probe and remove, whose calls
-- are among those of the simple KMS driver.
pub mod Probe
use Prim.Native.String.{String}
use embedded_linux_bsp.Common.{List, [], ◌∷◌}
use embedded_linux_bsp.Common.World.{◌>>=◌, ◌>>◌, emit}
use embedded_linux_bsp.Driver.Core.{DeviceDriver}
use embedded_linux_bsp.Drm.SimpleKms.{
  Call, devm_drm_dev_alloc, platform_set_drvdata, dev_register, dev_unplug, Kernel, Action,
  attempt_call, DrmDriver, gem,
}

abbrev pub my_drm_driver : DrmDriver
my_drm_driver = record {
  driver_features = gem ∷ [];
  name = "gem_shmem_skel";
  desc = "Minimal DRM GEM shmem skeleton";
  date = "2026";
  major = 1;
  minor = 0;
}

pub my_probe : Kernel → Action
my_probe k = do
  attempt_call devm_drm_dev_alloc k.devm_drm_dev_alloc
  emit platform_set_drvdata
  attempt_call dev_register k.dev_register

pub my_remove : Action
my_remove = emit dev_unplug

abbrev pub my_of_match : List String
my_of_match = "example,gem-shmem-skeleton" ∷ []

abbrev pub my_platform_driver : Kernel → DeviceDriver (Unit {0}) Call (Unit {0})
my_platform_driver k = record {
  name = my_drm_driver.name;
  of_match_table = my_of_match;
  probe = my_probe k;
  remove = my_remove;
}
