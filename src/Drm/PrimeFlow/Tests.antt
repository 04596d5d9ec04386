-- ===== src/Drm/PrimeFlow/Tests.antt =====
-- A card that would import any buffer.
use embedded_linux_bsp.Common.{◌+◌, ℤ, ◌≡◌, ◌⊎◌, []}
use embedded_linux_bsp.Common.World.{ok, err, World}
use embedded_linux_bsp.Drm.PrimeFlow.{Object, Device, main}
use embedded_linux_bsp.Drm.PrimeFlow.Closing.{main-closes}

abbrev card : Device
card = record {
  open_card = λ t. ok tt;
  prime_fd_to_handle = λ t fd. ok (fd + 1);
  add_fb2 = λ t w h f handles pitches offsets. ok 3;
}

abbrev begin : World Object (Unit {0})
begin = record { tick = 0; ledger = record { live = []; faults = 0 }; out = [] }

main-closes_example :
    let (ret, after) = main card begin in
    (after.ledger ≡ begin.ledger)
    × (after.tick ≡ begin.tick + 1)
    × (((e : ℤ) × (card.open_card begin.tick ≡ err e) × (ret ≡ ok 1))
        ⊎ ((card.open_card begin.tick ≡ ok tt) × (ret ≡ ok 0)))
main-closes_example = main-closes card begin
