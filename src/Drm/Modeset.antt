-- ===== src/Drm/Modeset.antt =====
-- `main` of code/examples/drm/drm_plane_crtc_flow/userspace/modeset_minimal.c. Its `create_dumb_buffer`
-- and its loop over the connectors are those of the atomic program.
pub mod Balance
pub mod Frees
pub mod Shown
pub mod Left
use embedded_linux_bsp.Common.{ℕ, true, false, Bool, nonzero, ℤ}
use embedded_linux_bsp.Common.World.{
  Result, ok, err, pure, ◌>>=◌, ◌>>◌, attempt, ask, emit, hold, give_back,
}
use embedded_linux_bsp.Drm.Env.{
  Device, Action, Call, Mode, Connector, Encoder, card, resources, connector, encoder, framebuffer,
  gem, object_resource,
}
use embedded_linux_bsp.Drm.Dumb
use embedded_linux_bsp.Drm.Dumb.{DumbBuffer, no_buffer, unmap}
use embedded_linux_bsp.Drm.Fill
use embedded_linux_bsp.Drm.Fill.{Memory}
use embedded_linux_bsp.Drm.Connector.{search_connectors, get_encoder_of}

-- the same functions as in the atomic program
abbrev pub create_dumb_buffer : Device → ℕ → ℕ → DumbBuffer → Action (DumbBuffer × ℤ)
create_dumb_buffer = Dumb.create_dumb_buffer

abbrev pub fill_color : (map pitch width height color : ℕ) → Memory → Memory
fill_color = Fill.fill_color

-- the calls before a `return`, from the encoder on
pub free_from_encoder : Connector → Encoder → ℕ → Action ℕ
free_from_encoder conn enc status = do
  give_back (encoder enc.encoder_id)
  give_back (connector conn.connector_id)
  give_back resources
  give_back card
  pure status

-- the calls before a `return`, from the connector on
pub free_from_connector : Connector → ℕ → Action ℕ
free_from_connector conn status = do
  give_back (connector conn.connector_id)
  give_back resources
  give_back card
  pure status

-- from the `munmap` to the last `return`
pub take_down : Connector → Encoder → DumbBuffer → Action ℕ
take_down conn enc buf = do
  unmap buf.map
  give_back (framebuffer buf.fb_id)
  give_back (gem buf.handle)
  free_from_encoder conn enc 0

module _ (d : Device) where
  -- from `fill_color` on: without the CRTC it returns and frees nothing
  pub present : Connector → Mode → Encoder → DumbBuffer → Action ℕ
  present conn mode enc buf = do
    emit (Call.fill_color buf.fb_id mode.hdisplay mode.vdisplay 0x00ff0000)
    shown ← attempt (ask (λ t. d.set_crtc t enc.crtc_id buf.fb_id conn.connector_id mode))
    elim shown [ err _ ↦ pure 1 | ok _ ↦ do emit (Call.set_crtc buf.fb_id); take_down conn enc buf ]

  pub with_encoder : Connector → Mode → Encoder → Action ℕ
  with_encoder conn mode enc = do
    hold (encoder enc.encoder_id)
    created ← create_dumb_buffer d mode.hdisplay mode.vdisplay no_buffer
    elim (nonzero created.1) [
      | true ↦ free_from_encoder conn enc 1
      | false ↦ present conn mode enc created.0
    ]

  pub with_connector : Connector × Mode → Action ℕ
  with_connector (conn, mode) = do
    got ← attempt (get_encoder_of d conn)
    elim got [ err _ ↦ free_from_connector conn 1 | ok enc ↦ with_encoder conn mode enc ]

  -- `main`, with the exit status
  pub main : Action ℕ
  main = do
    opened ← attempt (ask d.open_card)
    elim opened [
      | err _ ↦ pure 1
      | ok _ ↦ do
        hold card
        got ← attempt (ask d.get_resources)
        elim got [
          | err _ ↦ do give_back card; pure 1
          | ok res ↦ do
            hold resources
            found ← attempt (search_connectors d res.connectors)
            elim found [
              | err _ ↦ do give_back resources; give_back card; pure 1
              | ok f ↦ with_connector f
            ]
        ]
    ]
