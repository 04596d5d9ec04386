-- ===== src/Drm/Connector/Missing.antt =====
-- Why `find_connector_crtc` fails.
use embedded_linux_bsp.Common.{
  ℕ, ◌≡◌, refl, inl, inr, ◌⊎◌, ltb, Bool-cases, none, some, Option, List, [], ◌∷◌, All, ℤ, arith,
}
use embedded_linux_bsp.Common.World.{ok, err, pure, ◌>>◌, give_back}
use embedded_linux_bsp.Common.World.Ensures.{Answered, ask-Ensures, attempt-Ensures}
use embedded_linux_bsp.Common.World.Blames.{
  Blames, fail-Blames, pure-Blames, attempt-Blames, ask-Blames, bracket-Blames, closing-Blames,
  hold-Blames, give_back-Blames, >>=-Blames,
}
use embedded_linux_bsp.Drm.Env.{
  Device, Action, Mode, Connector, Resources, connector, object_resource,
}
use embedded_linux_bsp.Drm.Connector.{
  first_mode, keep_or_free, search_connectors, get_encoder_of, target_of, find_connector_crtc,
}
use embedded_linux_bsp.Drm.Connector.Found.{IsUsable, search_connectors-Ensures}

abbrev Any : {A : Type 0} → A → Type 0
Any _ = Unit

module _ (d : Device) where
  -- The device refused this connector, or gave one that is not connected or has no mode.
  abbrev pub IsPassedOver : ℕ → Type 0
  IsPassedOver id =
      ((t : ℕ) × (e : ℤ) × (d.get_connector t id ≡ err e))
      ⊎ ((t : ℕ) × (conn : Connector) × (d.get_connector t id ≡ ok conn) × (first_mode conn ≡ none))

  -- The connector names no encoder, or the device refused the one it names.
  abbrev pub HasNoEncoder : Connector → Type 0
  HasNoEncoder conn =
      (conn.encoder_id ≡ 0) ⊎ ((t : ℕ) × (e : ℤ) × (d.get_encoder t conn.encoder_id ≡ err e))

  -- The device refused its resources, or each connector that they name was passed over, or the usable one found has no
  -- encoder.
  pub data IsMissing : Type 0 where
    no_resources : (t : ℕ) (e : ℤ) → d.get_resources t ≡ err e → IsMissing
    no_connector :
        (t : ℕ) (res : Resources)
        → d.get_resources t ≡ ok res
        → All IsPassedOver res.connectors
        → IsMissing
    no_encoder :
        (conn : Connector) (mode : Mode) → IsUsable d (conn, mode) → HasNoEncoder conn → IsMissing

  keep_or_free-Blames :
      (Q : Type 0) (conn : Connector) (next : Action (Connector × Mode))
      → (first_mode conn ≡ none → Blames Q next)
      → Blames Q (keep_or_free d conn next)
  unfolding keep_or_free
  keep_or_free-Blames Q conn next h =
      >>=-Blames Any Q (hold-Blames Q _) (record { post = λ w r e. tt })
        λ _ _. choose (first_mode conn) h
    where
      choose :
          (o : Option Mode)
          → (o ≡ none → Blames Q next)
          → Blames Q (
              let rest : Action (Connector × Mode) = elim o [
                | none ↦ do give_back (connector conn.connector_id); next
                | some mode ↦ pure (conn, mode)
              ] in
              rest)
      choose none k =
          >>=-Blames Any Q (give_back-Blames Q _) (record { post = λ w r e. tt }) λ _ _. k refl
      choose (some mode) k = pure-Blames Q _

  search-Blames :
      (Q : Type 0) (ids : List ℕ) → (All IsPassedOver ids → Q) → Blames Q (search_connectors d ids)
  unfolding search_connectors
  search-Blames Q [] done = fail-Blames Q _ (done tt)
  search-Blames Q (id ∷ rest) done =
      >>=-Blames (Answered (λ t. d.get_connector t id)) Q (attempt-Blames Q _) (attempt-Ensures _)
        (elim [
          | err e ↦ λ (t, q). search-Blames Q rest λ all. done (inl (t, e, q), all)
          | ok conn ↦ λ (t, q).
              keep_or_free-Blames Q conn _
                λ useless. search-Blames Q rest λ all. done (inr (t, conn, q, useless), all)
        ])

  -- If the loop over the connectors fails, the device refused each, or gave it without a connection or a mode.
  pub search_connectors-Blames :
      (ids : List ℕ) → Blames (All IsPassedOver ids) (search_connectors d ids)
  search_connectors-Blames ids = search-Blames _ ids λ all. all

  pub get_encoder_of-Blames :
      (conn : Connector) → Blames (HasNoEncoder conn) (get_encoder_of d conn)
  unfolding get_encoder_of
  get_encoder_of-Blames conn = elim (Bool-cases (ltb 0 conn.encoder_id)) [
    | inl q ↦ rw (q, get_encoder_of) (ask-Blames _ _ λ t e r. inr (t, e, r))
    | inr q ↦ rw (q, get_encoder_of) (fail-Blames _ _ (inl (ground (arith, q))))
  ]

  pub find_connector_crtc-Blames : Blames IsMissing (find_connector_crtc d)
  unfolding find_connector_crtc target_of
  find_connector_crtc-Blames =
      >>=-Blames (λ res. (t : ℕ) × (d.get_resources t ≡ ok res)) _
        (ask-Blames _ _ λ t e q. no_resources t e q) (ask-Ensures _ _ λ t res q. (t, q))
        λ res (t, got). bracket-Blames _ _ (
          >>=-Blames (IsUsable d) _ (search-Blames _ res.connectors (no_connector t res got))
            (search_connectors-Ensures d _)
            λ (conn, mode) usable. closing-Blames _ _ (
              >>=-Blames Any _
                (record {
                  fault = λ w e q.
                      no_encoder conn mode usable ((get_encoder_of-Blames conn).fault w e q);
                })
                (record { post = λ w r e. tt }) λ enc _. bracket-Blames _ _ (pure-Blames _ _)))
