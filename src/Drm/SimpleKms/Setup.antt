-- ===== src/Drm/SimpleKms/Setup.antt =====
-- What the device is like when it is registered, and when it gets its console.
use embedded_linux_bsp.Common.{ℕ, ◌≡◌, ◌⊎◌, true, false, Bool, ◌&&◌, List, [], ◌∷◌, ℤ}
use embedded_linux_bsp.Common.World.{Result, ok, err, World}
use embedded_linux_bsp.Drm.SimpleKms.{
  Call, devm_drm_dev_alloc, platform_set_drvdata, drmm_mode_config_init, mode_config,
  connector_helper_add, connector_init, display_pipe_init, mode_config_reset, dev_register,
  fbdev_generic_setup, dev_unplug, Kernel,
}

-- What has been asked of the kernel so far, and whether each call came after those that it rests on.
pub record Setup : Type 0 where
  pub config : Bool
  pub limits : Bool
  pub connector : Bool
  pub pipe : Bool
  pub reset : Bool
  pub registered : Bool
  pub console : Bool
  pub ordered : Bool

abbrev pub nothing : Setup
nothing = record {
  config = false;
  limits = false;
  connector = false;
  pipe = false;
  reset = false;
  registered = false;
  console = false;
  ordered = true;
}

-- The limits and the connector rest on the mode configuration, the pipe on the connector, the reset on both, the
-- registration on the limits and the reset, and the console on the registration.
pub see : Call → Setup → Setup
see drmm_mode_config_init s = record s { config = true }
see (mode_config _ _ _ _) s = record s { limits = true; ordered = s.ordered && s.config }
see connector_init s = record s { connector = true; ordered = s.ordered && s.config }
see (display_pipe_init _) s = record s { pipe = true; ordered = s.ordered && s.connector }
see mode_config_reset s = record s { reset = true; ordered = s.ordered && (s.connector && s.pipe) }
see dev_register s = record s { registered = true; ordered = s.ordered && (s.limits && s.reset) }
see (fbdev_generic_setup _) s = record s { console = true; ordered = s.ordered && s.registered }
see devm_drm_dev_alloc s = s
see platform_set_drvdata s = s
see connector_helper_add s = s
see dev_unplug s = s

pub setup_after : Setup → List Call → Setup
setup_after s [] = s
setup_after s (c ∷ cs) = setup_after (see c s) cs

-- All is asked for in order; the console last, if the probe succeeds; and a probe that fails has asked for the
-- registration only if it is this that was refused.
abbrev pub IsOrderly : Kernel → List Call → Result (Unit {0}) → Type 0
IsOrderly k calls ret =
    ((setup_after nothing calls).ordered ≡ true)
    × (((ret ≡ ok tt) × ((setup_after nothing calls).console ≡ true))
        ⊎ ((e : ℤ) × (ret ≡ err e)
            × ((setup_after nothing calls).console ≡ false)
            × ((setup_after nothing calls).registered ≡ true
                → (t : ℕ) × (k.dev_register t ≡ err e))))
