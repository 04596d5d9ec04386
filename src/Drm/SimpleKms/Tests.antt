-- ===== src/Drm/SimpleKms/Tests.antt =====
-- A kernel that has no room for the pipe.
use embedded_linux_bsp.Common.{◌≡◌, refl, [], ◌∷◌}
use embedded_linux_bsp.Common.World.{ok, err, World, ◌>>=◌, emit, ask}
use embedded_linux_bsp.Driver.User.{enomem}
use embedded_linux_bsp.Drm.SimpleKms.{
  Call, devm_drm_dev_alloc, platform_set_drvdata, drmm_mode_config_init, mode_config,
  connector_helper_add, connector_init, display_pipe_init, my_formats, Kernel, my_drm_probe,
}

abbrev full : Kernel
full = record {
  devm_drm_dev_alloc = λ t. ok tt;
  drmm_mode_config_init = λ t. ok tt;
  connector_init = λ t. ok tt;
  display_pipe_init = λ t. err enomem;
  dev_register = λ t. ok tt;
}

abbrev begin : World (Unit {0}) Call
begin = record { tick = 0; ledger = record { live = []; faults = 0 }; out = [] }

-- The device is not registered.
refused_pipe :
    ((my_drm_probe full begin).0 ≡ err enomem)
    × ((my_drm_probe full begin).1.out
        ≡ devm_drm_dev_alloc
          ∷ platform_set_drvdata
          ∷ drmm_mode_config_init
          ∷ mode_config 800 800 480 480
          ∷ connector_helper_add
          ∷ connector_init
          ∷ display_pipe_init my_formats
          ∷ [])
unfolding my_drm_probe ◌>>=◌ emit ask
refused_pipe = (refl, refl)
