-- ===== src/Drm/GemShmem/Probe.antt =====
-- The order of the calls of the GEM skeleton's probe.
use embedded_linux_bsp.Common.{[], ◌∷◌, none, some}
use embedded_linux_bsp.Drm.SimpleKms.{
  devm_drm_dev_alloc, platform_set_drvdata, dev_register, Kernel,
}
use embedded_linux_bsp.Drm.SimpleKms.Probe.{Follows, follows}
use embedded_linux_bsp.Drm.GemShmem.{my_probe}

-- Probing the GEM skeleton allocates the device, stores it, and registers it, in this order, until the kernel refuses
-- one of them, and returns that error, or 0.
pub my_probe-Follows :
    (k : Kernel)
    → Follows (my_probe k) (
        (devm_drm_dev_alloc, some k.devm_drm_dev_alloc)
        ∷ (platform_set_drvdata, none)
        ∷ (dev_register, some k.dev_register)
        ∷ [])
unfolding my_probe
my_probe-Follows k = search follows
