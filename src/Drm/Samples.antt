-- ===== src/Drm/Samples.antt =====
-- A small tablet with one screen of 2 x 1 pixels, for the tests.
use embedded_linux_bsp.Common.{ℕ, ◌+◌, ◌==◌, [], ◌∷◌, if◌then◌else◌}
use embedded_linux_bsp.Common.World.{ok}
use embedded_linux_bsp.Drm.Env.{Device, Session, Mode, Connector, connected, disconnected}
use embedded_linux_bsp.Drm.Dumb.{at, DumbBuffer}
use embedded_linux_bsp.Drm.Connector.{Target}

abbrev pub small : Mode
small = record { hdisplay = 2; vdisplay = 1 }

abbrev pub screen : ℕ → Connector
screen id = record {
  connector_id = id;
  encoder_id = 40;
  connection = if id == 31 then connected else disconnected;
  modes = small ∷ [];
}

abbrev pub tablet : Device
tablet = record {
  open_card = λ t. ok tt;
  set_client_cap = λ t c. ok tt;
  get_resources = λ t. ok (record { connectors = 30 ∷ 31 ∷ []; crtcs = 49 ∷ 50 ∷ [] });
  get_connector = λ t id. ok (screen id);
  get_encoder = λ t id. ok (record { encoder_id = id; crtc_id = 50 });
  get_plane_resources = λ t. ok (59 ∷ 60 ∷ []);
  get_plane = λ t id. ok (record { plane_id = id; possible_crtcs = if id == 59 then 1 else 3 });
  get_object_properties = λ t id o. ok ((1, 1) ∷ []);
  get_property = λ t p. ok (record { prop_id = p; name = "type" });
  create_dumb = λ t w h bpp. ok (record { handle = 7; pitch = 8; size = 8 });
  add_fb = λ t w h depth bpp pitch handle. ok (t + 1);
  map_dumb = λ t handle. ok 0;
  mmap = λ t size offset. ok 4096;
  create_property_blob = λ t mode. ok 90;
  atomic_alloc = λ t. ok tt;
  atomic_add_property = λ t o p v. ok tt;
  atomic_commit = λ t items. ok tt;
  set_crtc = λ t c f o m. ok tt;
  page_flip = λ t c f. ok tt;
}

abbrev pub begin : Session
begin = record { tick = 0; ledger = record { live = []; faults = 0 }; out = [] }

abbrev pub target : Target
target = record { conn_id = 31; crtc_id = 50; mode = small }

abbrev pub shown_buffer : DumbBuffer
shown_buffer = record { handle = 7; pitch = 8; size = 8; map = at 4096; fb_id = 2 }

abbrev pub hidden_buffer : DumbBuffer
hidden_buffer = record { handle = 8; pitch = 8; size = 8; map = at 8192; fb_id = 3 }
