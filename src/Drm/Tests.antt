-- ===== src/Drm/Tests.antt =====
-- The userspace programs on a small tablet with one screen of 2 x 1 pixels.
use embedded_linux_bsp.Common.{
  ◌⊎◌, List, ◌++◌, ap, ◌+◌, ◌*◌, ◌%◌, ◌<◌, ◌^◌, ◌≡◌, refl, [], ◌∷◌, if◌then◌else◌, negsuc, arith,
  ltb,
}
use embedded_linux_bsp.Common.World.{
  ok, err, pure, fail, ◌>>=◌, attempt, ask, hold, give_back, bracket, closing,
}
use embedded_linux_bsp.Common.World.Ensures.{Ensures}
use embedded_linux_bsp.Common.Ledger.{acquire}
use embedded_linux_bsp.Drm.Env.{Device, Call, gem, object_resource}
use embedded_linux_bsp.Drm.Dumb.Balance.{IsNumbered}
use embedded_linux_bsp.Drm.Fill.{byte_of, fill_color}
use embedded_linux_bsp.Drm.Fill.Pixels.{fill_color_pixels}
use embedded_linux_bsp.Drm.Connector.{
  first_mode, keep_or_free, search_connectors, get_encoder_of, target_of, find_connector_crtc,
}
use embedded_linux_bsp.Drm.Connector.First.{IsChoice, first_mode-some, search_connectors-IsChoice}
use embedded_linux_bsp.Drm.Atomic.{
  shift_16, find_primary_plane, get_prop_id, modeset, main, matching_id, index_of, can_drive,
  has_primary, scan_props, is_primary, search_planes, search_at,
}
use embedded_linux_bsp.Drm.Atomic.Balance.{IsAbandoned, modeset_leaks}
use embedded_linux_bsp.Drm.Atomic.Lookup.{IsPlaneOf, find_primary_plane-Ensures}
use embedded_linux_bsp.Drm.Atomic.Request.{shift_16_overflow}
use embedded_linux_bsp.Drm.Modeset
use embedded_linux_bsp.Drm.Modeset.Shown.{IsShown as Presents, main-status}
use embedded_linux_bsp.Drm.Atomic.Left.{main_atomic_left}
use embedded_linux_bsp.Drm.Modeset.Left.{IsLeft, main-IsLeft}
use embedded_linux_bsp.Drm.Atomic.Shown.{IsNarrow, IsShown, main-shows}
use embedded_linux_bsp.Drm.Samples.{screen, small, tablet, begin, target}

-- It cannot make a framebuffer.
abbrev poor : Device
poor = record tablet { add_fb = λ t w h depth bpp pitch handle. err (negsuc 11) }

poor-IsNumbered : IsNumbered poor
poor-IsNumbered = record {
  handle_pos = λ t w h bpp c e. ground (arith, e);
  fb_pos = λ t w h depth bpp pitch handle fb e. cc;
}

fill_color_pixels_example :
    fill_color 4096 8 1 1 0xff00 (λ a. 5) (4096 + 0 * 8 + 1)
    ≡ (if ltb 1 (4 * 1) then byte_of 0xff00 (1 % 4) else 5)
fill_color_pixels_example =
    fill_color_pixels 4096 8 1 0xff00 (omega arith) 1 0 1 (λ a. 5) (omega arith) (omega arith)
      (omega arith)

search_connectors-IsChoice_example :
    IsChoice
      (tablet.get_connector 0)
      (30 ∷ 31 ∷ [])
      (search_connectors tablet (30 ∷ 31 ∷ []) begin).0
search_connectors-IsChoice_example =
    search_connectors-IsChoice (tablet.get_connector 0) tablet (λ t id. refl) (30 ∷ 31 ∷ []) begin

find_primary_plane-Ensures_example : Ensures (IsPlaneOf tablet 50) (find_primary_plane tablet 50)
find_primary_plane-Ensures_example = find_primary_plane-Ensures tablet 50

shift_16_overflow_example : 2 ^ 63 < shift_16 32768
shift_16_overflow_example = shift_16_overflow 32768 (omega arith) (omega arith)

poor_finds : (find_connector_crtc poor begin).0 ≡ ok target
unfolding find_connector_crtc search_connectors keep_or_free get_encoder_of target_of first_mode
    pure fail ◌>>=◌ attempt ask hold give_back bracket closing
poor_finds = refl

poor_plane : (find_primary_plane poor 50 (find_connector_crtc poor begin).1).0 ≡ ok 60
unfolding find_primary_plane search_at search_planes is_primary get_prop_id scan_props matching_id
    index_of can_drive has_primary find_connector_crtc search_connectors keep_or_free get_encoder_of
    target_of first_mode pure fail ◌>>=◌ attempt ask hold give_back bracket closing
poor_plane = refl

modeset_leaks_example : (modeset poor begin).1.ledger ≡ acquire (gem 7) begin.ledger
modeset_leaks_example =
    modeset_leaks poor begin target 60 (record { handle = 7; pitch = 8; size = 8 }) (negsuc 11)
      poor_finds poor_plane (refl, refl)

-- The device accepts every item, and its modes are small.
tablet-IsNarrow : IsNarrow tablet
tablet-IsNarrow t id conn mode got first =
    let same : screen id ≡ conn = cc got in
    let (_, (others, modes)) = first_mode-some conn conn.connection conn.modes mode first in
    let only : mode ≡ small = cc (same, modes) in
    (omega (arith, ap (λ m. m.hdisplay) only), omega (arith, ap (λ m. m.vdisplay) only))

main-shows_example :
    (calls : List Call) × ((main tablet begin).1.out ≡ begin.out ++ calls) × IsShown tablet calls
main-shows_example = main-shows tablet (λ t o p v. refl) tablet-IsNarrow begin

main-status_example :
    (calls : List Call) × ((Modeset.main tablet begin).1.out ≡ begin.out ++ calls)
    × Presents tablet (Modeset.main tablet begin).0 calls
main-status_example = main-status tablet begin

main_atomic_left_example :
    ((main poor begin).1.ledger ≡ begin.ledger)
    ⊎ IsAbandoned poor begin.ledger (main poor begin).1.ledger
main_atomic_left_example = main_atomic_left poor poor-IsNumbered begin

main-IsLeft_example : IsLeft poor begin.ledger (Modeset.main poor begin)
main-IsLeft_example = main-IsLeft poor poor-IsNumbered begin
