-- ===== src/Drm/DumbFlow/Tests.antt =====
-- The dumb buffer program on the small tablet.
use embedded_linux_bsp.Common.{◌+◌, ◌≡◌, ◌⊎◌, []}
use embedded_linux_bsp.Common.World.{ok, World}
use embedded_linux_bsp.Drm.Env.{Object}
use embedded_linux_bsp.Drm.Samples.{tablet}
use embedded_linux_bsp.Drm.DumbFlow.{Filled, AddFb2, main}
use embedded_linux_bsp.Drm.DumbFlow.Status.{Made, main-Made}

abbrev any_fb : AddFb2
any_fb = λ t w h f handles pitches offsets. ok (t + 1)

abbrev start : World Object Filled
start = record { tick = 0; ledger = record { live = []; faults = 0 }; out = [] }

main-Made_example :
    ((main tablet any_fb start).0 ≡ ok 1)
    ⊎ (((main tablet any_fb start).0 ≡ ok 0)
        × Made tablet any_fb start (main tablet any_fb start).1)
main-Made_example = main-Made tablet any_fb start
