-- ===== src/Drm/Connector/Found.antt =====
-- What `find_connector_crtc` writes to its target.
use embedded_linux_bsp.Common.{
  ℕ, ◌≡◌, refl, ltb, inl, inr, Bool-cases, none, some, Option, List, [], ◌∷◌,
}
use embedded_linux_bsp.Common.World.{ok, err, pure, ◌>>◌, give_back}
use embedded_linux_bsp.Common.World.Ensures.{
  Ensures, Answered, ask-Ensures, attempt-Ensures, pure-Ensures, fail-Ensures, >>=-Ensures,
  bracket-Ensures, closing-Ensures,
}
use embedded_linux_bsp.Common.World.Puts.{
  IsSilent, >>=-IsSilent, ask-IsSilent, attempt-IsSilent, pure-IsSilent, fail-IsSilent,
  hold-IsSilent, give_back-IsSilent, bracket-IsSilent, closing-IsSilent,
}
use embedded_linux_bsp.Drm.Env.{
  Device, Action, Mode, Connector, Encoder, connector, object_resource,
}
use embedded_linux_bsp.Drm.Connector.{
  Target, first_mode, keep_or_free, search_connectors, get_encoder_of, target_of,
  find_connector_crtc,
}

abbrev Any : {A : Type 0} → A → Type 0
Any _ = Unit

module _ (d : Device) where
  keep_or_free-IsSilent :
      (conn : Connector) (next : Action (Connector × Mode))
      → IsSilent next
      → IsSilent (keep_or_free d conn next)
  unfolding keep_or_free
  keep_or_free-IsSilent conn next h = >>=-IsSilent (hold-IsSilent _) λ _. choose (first_mode conn)
    where
      choose :
          (o : Option Mode)
          → IsSilent (
              let rest : Action (Connector × Mode) = elim o [
                | none ↦ do give_back (connector conn.connector_id); next
                | some mode ↦ pure (conn, mode)
              ] in
              rest)
      choose none = >>=-IsSilent (give_back-IsSilent _) λ _. h
      choose (some mode) = pure-IsSilent _

  pub search_connectors-IsSilent : (ids : List ℕ) → IsSilent (search_connectors d ids)
  unfolding search_connectors
  search_connectors-IsSilent [] = fail-IsSilent _
  search_connectors-IsSilent (id ∷ rest) =
      let ih = search_connectors-IsSilent rest in
      >>=-IsSilent (attempt-IsSilent (ask-IsSilent _))
        (elim [ err _ ↦ ih | ok conn ↦ keep_or_free-IsSilent conn _ ih ])

  pub get_encoder_of-IsSilent : (conn : Connector) → IsSilent (get_encoder_of d conn)
  unfolding get_encoder_of
  get_encoder_of-IsSilent conn = elim (Bool-cases (ltb 0 conn.encoder_id)) [
    | inl q ↦ rw (q, get_encoder_of) (ask-IsSilent _)
    | inr q ↦ rw (q, get_encoder_of) (fail-IsSilent _)
  ]

  pub find_connector_crtc-IsSilent : IsSilent (find_connector_crtc d)
  unfolding find_connector_crtc target_of
  find_connector_crtc-IsSilent = >>=-IsSilent (ask-IsSilent _) λ res. bracket-IsSilent _ (
      >>=-IsSilent (search_connectors-IsSilent _) λ found.
        closing-IsSilent _
          (>>=-IsSilent (get_encoder_of-IsSilent _) λ enc. bracket-IsSilent _ (pure-IsSilent _)))

  -- The device gave the connector, and the mode is the first mode of it, which is connected.
  abbrev pub IsUsable : Connector × Mode → Type 0
  IsUsable (conn, mode) =
      (t id : ℕ) × (d.get_connector t id ≡ ok conn) × (first_mode conn ≡ some mode)

  keep_or_free-Ensures :
      (t id : ℕ) (conn : Connector) (next : Action (Connector × Mode))
      → d.get_connector t id ≡ ok conn
      → Ensures IsUsable next
      → Ensures IsUsable (keep_or_free d conn next)
  unfolding keep_or_free
  keep_or_free-Ensures t id conn next got h =
      >>=-Ensures Any _ (record { post = λ w r e. tt }) λ _ _. choose (first_mode conn) refl
    where
      choose :
          (o : Option Mode)
          → first_mode conn ≡ o
          → Ensures IsUsable (
              let rest : Action (Connector × Mode) = elim o [
                | none ↦ do give_back (connector conn.connector_id); next
                | some mode ↦ pure (conn, mode)
              ] in
              rest)
      choose none e = >>=-Ensures Any _ (record { post = λ w r e. tt }) λ _ _. h
      choose (some mode) e = pure-Ensures _ _ (t, id, got, e)

  pub search_connectors-Ensures : (ids : List ℕ) → Ensures IsUsable (search_connectors d ids)
  unfolding search_connectors
  search_connectors-Ensures [] = fail-Ensures _ _
  search_connectors-Ensures (id ∷ rest) =
      let ih = search_connectors-Ensures rest in
      >>=-Ensures (Answered (λ t. d.get_connector t id)) _ (attempt-Ensures _)
        (elim [ err _ ↦ λ _. ih | ok conn ↦ λ (t, q). keep_or_free-Ensures t id conn _ q ih ])

  abbrev pub IsEncoderOf : Connector → Encoder → Type 0
  IsEncoderOf conn enc = (t : ℕ) × (d.get_encoder t conn.encoder_id ≡ ok enc)

  pub get_encoder_of-Ensures :
      (conn : Connector) → Ensures (IsEncoderOf conn) (get_encoder_of d conn)
  unfolding get_encoder_of
  get_encoder_of-Ensures conn = elim (Bool-cases (ltb 0 conn.encoder_id)) [
    | inl q ↦ rw (q, get_encoder_of) (ask-Ensures _ _ λ t a e. (t, e))
    | inr q ↦ rw (q, get_encoder_of) (fail-Ensures _ _)
  ]

  -- A connector that the device gave, connected, with its first mode and the CRTC of its encoder.
  pub record IsTarget (target : Target) : Type 0 where
    pub conn : Connector
    pub usable : IsUsable (conn, target.mode)
    pub conn_id : target.conn_id ≡ conn.connector_id
    pub enc : Encoder
    pub bound : IsEncoderOf conn enc
    pub crtc_id : target.crtc_id ≡ enc.crtc_id

  pub find_connector_crtc-Ensures : Ensures IsTarget (find_connector_crtc d)
  unfolding find_connector_crtc target_of
  find_connector_crtc-Ensures =
      >>=-Ensures Any _ (record { post = λ w r e. tt })
        λ res _. bracket-Ensures _ _ (
          >>=-Ensures IsUsable _ (search_connectors-Ensures _) λ (conn, mode) usable.
            closing-Ensures _ _ (
              >>=-Ensures (IsEncoderOf conn) _ (get_encoder_of-Ensures conn) λ enc bound.
                bracket-Ensures _ _ (
                  pure-Ensures _ _ (record {
                    conn = conn;
                    usable = usable;
                    conn_id = refl;
                    enc = enc;
                    bound = bound;
                    crtc_id = refl;
                  }))))
