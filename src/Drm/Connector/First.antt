-- ===== src/Drm/Connector/First.antt =====
-- Which connector `find_connector_crtc` chooses, and what becomes of the others.
use embedded_linux_bsp.Common.{
  ℕ, ◌≡◌, refl, ◌∙◌, ap, inl, inr, ltb, Bool-cases, none, some, Option-cases, List, [], ◌∷◌, ◌++◌,
  All,
}
use embedded_linux_bsp.Common.World.{
  Result, Result-cases, ok, err, pure, fail, ◌>>=◌, attempt, ask, hold, give_back,
}
use embedded_linux_bsp.Common.World.Balance.{
  IsBalanced, Acquires, fail-Acquires, hold-Acquires, >>=-Acquires, closing-IsBalanced,
  >>=-IsBalanced, bracket-IsBalanced, ask-IsBalanced, attempt-IsBalanced, pure-IsBalanced,
  fail-IsBalanced,
}
use embedded_linux_bsp.Common.Ledger.{acquire, release-acquire}
use embedded_linux_bsp.Drm.Env.{
  Device, Action, Session, Object, Mode, connected, Connection, disconnected, unknown, Connector,
  resources, connector, object_resource,
}
use embedded_linux_bsp.Drm.Connector.{
  first_mode, keep_or_free, search_connectors, get_encoder_of, target_of, find_connector_crtc,
}

abbrev pub got_connector : Connector × Mode → Object
got_connector found = connector found.0.connector_id

module _ (d : Device) where
  keep_or_free-Acquires :
      (conn : Connector) (next : Action (Connector × Mode))
      → Acquires got_connector next
      → Acquires got_connector (keep_or_free d conn next)
  unfolding keep_or_free hold give_back pure ◌>>=◌
  keep_or_free-Acquires conn next h = elim (Option-cases (first_mode conn)) [
    | inl q ↦
        rw (q, keep_or_free)
          (record {
            taken = λ w a r.
                h.taken _ a r ∙ ap (acquire (got_connector a)) (release-acquire _ w.ledger);
            untouched = λ w e r. h.untouched _ e r ∙ release-acquire _ w.ledger;
          })
    | inr (mode, q) ↦ rw (q, keep_or_free) (hold-Acquires got_connector (conn, mode))
  ]

  pub search_connectors-Acquires : (ids : List ℕ) → Acquires got_connector (search_connectors d ids)
  unfolding search_connectors
  search_connectors-Acquires [] = fail-Acquires got_connector _
  search_connectors-Acquires (id ∷ rest) =
      let ih = search_connectors-Acquires rest in
      >>=-Acquires got_connector (attempt-IsBalanced (ask-IsBalanced _))
        (elim [ err _ ↦ ih | ok conn ↦ keep_or_free-Acquires conn _ ih ])

  pub get_encoder_of-IsBalanced : (conn : Connector) → IsBalanced (get_encoder_of d conn)
  unfolding get_encoder_of
  get_encoder_of-IsBalanced conn = elim (Bool-cases (ltb 0 conn.encoder_id)) [
    | inl q ↦ rw (q, get_encoder_of) (ask-IsBalanced _)
    | inr q ↦ rw (q, get_encoder_of) (fail-IsBalanced _)
  ]

  target_of-IsBalanced : (found : Connector × Mode) → IsBalanced (target_of d found)
  unfolding target_of
  target_of-IsBalanced (conn, mode) =
      >>=-IsBalanced (get_encoder_of-IsBalanced conn)
        λ enc. bracket-IsBalanced _ (pure-IsBalanced _)

  -- Whatever the device answers, `find_connector_crtc` ends holding what it held before: every connector that
  -- was got is freed, those passed over and the one chosen, and so are the resources and the encoder.
  pub find_connector_crtc-IsBalanced : IsBalanced (find_connector_crtc d)
  unfolding find_connector_crtc
  find_connector_crtc-IsBalanced = >>=-IsBalanced (ask-IsBalanced _) λ res.
      bracket-IsBalanced resources (
        closing-IsBalanced got_connector (search_connectors-Acquires res.connectors)
          target_of-IsBalanced)

first_mode-none :
    (conn : Connector) (c : Connection) (modes : List Mode)
    → first_mode (record conn { connection = c; modes = modes }) ≡ none
    → c ≡ connected
    → modes ≡ []
unfolding first_mode
first_mode-none conn connected [] e h = refl
first_mode-none conn connected (m ∷ ms) e h = cc
first_mode-none conn disconnected modes e h = cc
first_mode-none conn unknown modes e h = cc

pub first_mode-some :
    (conn : Connector) (c : Connection) (modes : List Mode) (mode : Mode)
    → first_mode (record conn { connection = c; modes = modes }) ≡ some mode
    → (c ≡ connected) × ((others : List Mode) × (modes ≡ mode ∷ others))
unfolding first_mode
first_mode-some conn connected [] mode e = cc
first_mode-some conn connected (m ∷ ms) mode e = let q : m ≡ mode = cc e in (refl, (ms, cc q))
first_mode-some conn disconnected modes mode e = cc
first_mode-some conn unknown modes mode e = cc

module _ (g : ℕ → Result Connector) where
  -- This connector cannot be got, is not connected, or has no mode.
  abbrev pub IsUseless : ℕ → Type 0
  IsUseless id = (conn : Connector) → g id ≡ ok conn → conn.connection ≡ connected → conn.modes ≡ []

  -- The connector found, with its first mode, and what stands before it in the list.
  pub record IsFirst (ids : List ℕ) (found : Connector × Mode) : Type 0 where
    pub before : List ℕ
    pub id : ℕ
    pub after : List ℕ
    pub split : ids ≡ before ++ id ∷ after
    pub skipped : All IsUseless before
    pub got : g id ≡ ok found.0
    pub usable : found.0.connection ≡ connected
    pub other_modes : List Mode
    pub modes : found.0.modes ≡ found.1 ∷ other_modes

  abbrev pub IsChoice : List ℕ → Result (Connector × Mode) → Type 0
  IsChoice ids (ok found) = IsFirst ids found
  IsChoice ids (err _) = All IsUseless ids

  IsChoice-skip :
      (id : ℕ) (ids : List ℕ) (r : Result (Connector × Mode))
      → IsUseless id
      → IsChoice ids r
      → IsChoice (id ∷ ids) r
  IsChoice-skip id ids (err e) useless h = (useless, h)
  IsChoice-skip id ids (ok found) useless h = record {
    before = id ∷ h.before;
    id = h.id;
    after = h.after;
    split = ap (λ l. id ∷ l) h.split;
    skipped = (useless, h.skipped);
    got = h.got;
    usable = h.usable;
    other_modes = h.other_modes;
    modes = h.modes;
  }

  module _ (d : Device) (steady : (t id : ℕ) → d.get_connector t id ≡ g id) where
    -- On a device whose answers do not change, the loop finds the first connector of the list that
    -- is connected and has a mode, with its first mode, and fails only if there is none.
    pub search_connectors-IsChoice :
        (ids : List ℕ) (w : Session) → IsChoice ids (search_connectors d ids w).0
    unfolding search_connectors keep_or_free ◌>>=◌ attempt ask hold give_back pure fail
    search_connectors-IsChoice [] w = tt
    search_connectors-IsChoice (id ∷ rest) w = elim (Result-cases (g id)) [
      | inl (e, missing) ↦
          rw (steady w.tick id, missing, ◌>>=◌, attempt)
            (IsChoice-skip id rest _ (λ conn q. cc (q, missing))
              (search_connectors-IsChoice rest _))
      | inr (conn, got) ↦ elim (Option-cases (first_mode conn)) [
        | inl none_first ↦
            rw (steady w.tick id, got, ◌>>=◌, attempt, none_first)
              (IsChoice-skip id rest _
                (λ other q.
                  let e : other ≡ conn = cc (q, got) in
                  rw e (first_mode-none conn conn.connection conn.modes none_first))
                (search_connectors-IsChoice rest _))
        | inr (mode, usable) ↦
            rw (steady w.tick id, got, ◌>>=◌, attempt, usable)
              (record {
                before = [];
                id = id;
                after = rest;
                split = refl;
                skipped = tt;
                got = got;
                usable = (first_mode-some conn conn.connection conn.modes mode usable).0;
                other_modes = (first_mode-some conn conn.connection conn.modes mode usable).1.0;
                modes = (first_mode-some conn conn.connection conn.modes mode usable).1.1;
              })
      ]
    ]
