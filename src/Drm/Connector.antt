-- ===== src/Drm/Connector.antt =====
-- `find_connector_crtc` of
-- code/examples/drm/drm_atomic_commit_flow/userspace/atomic_modeset_minimal.c; the page flip and the
-- modeset program have the same loop.
pub mod First
pub mod Found
pub mod Missing
use embedded_linux_bsp.Common.{ℕ, true, false, Bool, Option, none, some, List, [], ◌∷◌, ltb}
use embedded_linux_bsp.Common.World.{
  Result, ok, err, pure, fail, ◌>>=◌, ◌>>◌, attempt, ask, hold, give_back, bracket, closing,
}
use embedded_linux_bsp.Drm.Env.{
  Device, Action, Mode, Connection, connected, disconnected, unknown, Connector, Encoder, Resources,
  resources, connector, encoder, object_resource, minus_one,
}

-- `modes[0]` of a connector that is connected and has modes
unfoldable pub first_mode : Connector → Option Mode
first_mode conn = elim conn.connection [
  | connected ↦ elim conn.modes [ [] ↦ none | mode ∷ _ ↦ some mode ]
  | _ ↦ none
]

-- What `find_connector_crtc` writes through its pointers.
pub record Target : Type 0 where
  pub conn_id : ℕ
  pub crtc_id : ℕ
  pub mode : Mode

module _ (d : Device) where
  -- A connector that was got: it is kept if it is of use, else freed before the loop goes on.
  unfoldable pub keep_or_free : Connector → Action (Connector × Mode) → Action (Connector × Mode)
  keep_or_free conn next = do
    hold (connector conn.connector_id)
    elim (first_mode conn) [
      | none ↦ do give_back (connector conn.connector_id); next
      | some mode ↦ pure (conn, mode)
    ]

  -- the loop; a failure is `conn == NULL` at its end
  unfoldable pub search_connectors : List ℕ → Action (Connector × Mode)
  search_connectors [] = minus_one
  search_connectors (id ∷ rest) = do
    got ← attempt (ask (λ t. d.get_connector t id))
    elim got [
      | err _ ↦ search_connectors rest
      | ok conn ↦ keep_or_free conn (search_connectors rest)
    ]

  -- `enc` stays null without an encoder's number.
  unfoldable pub get_encoder_of : Connector → Action Encoder
  get_encoder_of conn = elim (ltb 0 conn.encoder_id) [
    | true ↦ ask (λ t. d.get_encoder t conn.encoder_id)
    | false ↦ minus_one
  ]

  unfoldable pub target_of : Connector × Mode → Action Target
  target_of (conn, mode) = do
    enc ← get_encoder_of conn
    bracket (encoder enc.encoder_id)
        (pure (record { conn_id = conn.connector_id; crtc_id = enc.crtc_id; mode = mode }))

  unfoldable pub find_connector_crtc : Action Target
  find_connector_crtc = do
    res ← ask d.get_resources
    bracket resources (do
      found ← search_connectors res.connectors
      closing (connector found.0.connector_id) (target_of found))
