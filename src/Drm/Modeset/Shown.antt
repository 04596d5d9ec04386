-- ===== src/Drm/Modeset/Shown.antt =====
-- What modeset_minimal.c puts on the screen, and the exit status that goes with it.
use embedded_linux_bsp.Common.{
  ℕ, ◌≡◌, refl, ◌⊎◌, inl, inr, true, false, Bool, nonzero, List, [], ◌∷◌, ◌++◌, ℤ,
}
use embedded_linux_bsp.Common.World.{
  Result, ok, err, pure, ◌>>=◌, ◌>>◌, attempt, ask, hold, give_back,
}
use embedded_linux_bsp.Common.World.Ensures.{
  no_error, Answered, give_back-Returns, then-Succeeds, pure-Succeeds, attempt-Ensures,
  attempt-Returns, hold-Returns, Attempted, attempt-Ensures_run,
}
use embedded_linux_bsp.Common.World.Puts.{
  Puts, silent-Puts, return-Puts, Puts-map, silence, emit-Puts, ask-IsSilent, attempt-IsSilent,
  pure-IsSilent, hold-IsSilent,
}
use embedded_linux_bsp.Drm.Env.{
  Device, Action, Session, Connector, Encoder, Mode, Resources, Call, card, resources,
  object_resource,
}
use embedded_linux_bsp.Drm.Dumb.{DumbBuffer}
use embedded_linux_bsp.Drm.Dumb.Silent.{create_dumb_buffer-IsSilent}
use embedded_linux_bsp.Drm.Dumb.Made.{
  IsBufferOf, IsMadeFor, create_dumb_buffer-Made, create_dumb_buffer-Returns,
}
use embedded_linux_bsp.Drm.Connector.{search_connectors, get_encoder_of}
use embedded_linux_bsp.Drm.Connector.Found.{
  search_connectors-IsSilent, get_encoder_of-IsSilent, IsUsable, search_connectors-Ensures,
  IsEncoderOf, get_encoder_of-Ensures,
}
use embedded_linux_bsp.Drm.Dumb.Refused.{IsRefused, Unmade, create_dumb_buffer-Unmade}
use embedded_linux_bsp.Drm.Connector.Missing.{
  IsMissing, no_resources, no_connector, no_encoder, search_connectors-Blames,
  get_encoder_of-Blames,
}
use embedded_linux_bsp.Drm.Modeset.{free_from_encoder, present, with_encoder, with_connector, main}
use embedded_linux_bsp.Drm.Modeset.Frees.{
  free_from_connector-Puts, free_from_encoder-Puts, take_down-Puts,
}

-- What can be wrong before the buffer is filled: the device refused the card or its resources, or each connector that
-- they name was passed over, or a usable one has no encoder, or there is no buffer for its first mode.
pub data Excuse (d : Device) : Type 0 where
  unopened : (t : ℕ) (e : ℤ) → d.open_card t ≡ err e → Excuse d
  no_target : IsMissing d → Excuse d
  no_space :
      (conn : Connector) (mode : Mode) → IsUsable d (conn, mode) → IsRefused d mode → Excuse d

-- A connected connector that the device gave, with its first mode, its encoder, and a buffer of the mode.
pub record IsSetting (d : Device) (conn : Connector) (mode : Mode) (enc : Encoder)
    (buf : DumbBuffer) : Type 0 where
  pub usable : IsUsable d (conn, mode)
  pub bound : IsEncoderOf d conn enc
  pub buffer : IsBufferOf d mode buf

abbrev red : Mode → DumbBuffer → Call
red mode buf = Call.fill_color buf.fb_id mode.hdisplay mode.vdisplay 0x00ff0000

-- What the device answered to `drmModeSetCrtc` for the buffer.
abbrev pub SetCrtc : Device → Connector → Mode → Encoder → DumbBuffer → Result (Unit {0}) → Type 0
SetCrtc d conn mode enc buf r =
    (t : ℕ) × (d.set_crtc t enc.crtc_id buf.fb_id conn.connector_id mode ≡ r)

abbrev pub IsPresented :
    Device → Connector → Mode → Encoder → DumbBuffer → Result ℕ → List Call → Type 0
IsPresented d conn mode enc buf status calls =
    ((status ≡ ok 1) × (calls ≡ red mode buf ∷ []) × (e : ℤ) × SetCrtc d conn mode enc buf (err e))
    ⊎ ((status ≡ ok 0)
        × (calls ≡ red mode buf ∷ Call.set_crtc buf.fb_id ∷ [])
        × SetCrtc d conn mode enc buf (ok tt))

abbrev pub IsShown : Device → Result ℕ → List Call → Type 0
IsShown d status calls =
    ((status ≡ ok 1) × (calls ≡ []) × Excuse d)
    ⊎ ((conn : Connector) × (mode : Mode) × (enc : Encoder) × (buf : DumbBuffer) × IsSetting d conn
          mode enc buf
        × IsPresented d conn mode enc buf status calls)

module _ (d : Device) where
  present-Puts :
      (conn : Connector) (mode : Mode) (enc : Encoder) (buf : DumbBuffer)
      → Puts (IsPresented d conn mode enc buf) (present d conn mode enc buf)
  unfolding present
  present-Puts conn mode enc buf = emit-Puts _ (red mode buf) (
      silent-Puts (Answered (λ t. d.set_crtc t enc.crtc_id buf.fb_id conn.connector_id mode)) _
        (attempt-IsSilent (ask-IsSilent _)) (attempt-Ensures _)
        (λ w e q. no_error _ w e (attempt-Returns _) q)
        (elim [
          | err e ↦ λ (t, q).
              return-Puts _ (pure-IsSilent 1) (pure-Succeeds _ 1 (inl (refl, refl, e, (t, q))))
          | ok _ ↦ λ (t, q).
              emit-Puts _ (Call.set_crtc buf.fb_id)
                (take_down-Puts _ conn enc buf (inr (refl, refl, (t, q))))
        ]))

  with_encoder-Puts :
      (conn : Connector) (mode : Mode) (enc : Encoder)
      → IsUsable d (conn, mode)
      → IsEncoderOf d conn enc
      → Puts (IsShown d) (with_encoder d conn mode enc)
  unfolding with_encoder
  with_encoder-Puts conn mode enc usable bound =
      silent-Puts _ _ (hold-IsSilent _) (record { post = λ w r e. tt })
        (λ w e q. no_error _ w e (hold-Returns _) q)
        λ _ _.
          silent-Puts (λ r. IsMadeFor d mode r × Unmade d mode r) _
            (create_dumb_buffer-IsSilent d _ _ _)
            (record {
              post = λ w r e. (
                (create_dumb_buffer-Made d mode).post w r e,
                (create_dumb_buffer-Unmade d mode).post w r e,
              );
            })
            (λ w e q. no_error _ w e (create_dumb_buffer-Returns d _ _ _) q)
            λ (buf, ret) (made, unmade).
              choose (nonzero ret) buf made λ bad. no_space conn mode usable (unmade bad)
    where
      choose :
          (b : Bool) (buf : DumbBuffer)
          → (b ≡ false → IsBufferOf d mode buf)
          → (b ≡ true → Excuse d)
          → Puts (IsShown d) (
              let act : Action ℕ = elim b [
                | true ↦ free_from_encoder conn enc 1
                | false ↦ present d conn mode enc buf
              ] in
              act)
      choose true buf made bad =
          free_from_encoder-Puts (IsShown d) 1 (inl (refl, refl, bad refl)) conn enc
      choose false buf made bad =
          Puts-map _ _
            (λ r calls h. inr (
              conn,
              mode,
              enc,
              buf,
              record { usable = usable; bound = bound; buffer = made refl },
              h,
            ))
            (present-Puts conn mode enc buf)

  with_connector-Puts :
      (found : Connector × Mode) → IsUsable d found → Puts (IsShown d) (with_connector d found)
  unfolding with_connector
  with_connector-Puts (conn, mode) usable =
      silent-Puts (Attempted (get_encoder_of d conn)) _
        (attempt-IsSilent (get_encoder_of-IsSilent d conn)) (attempt-Ensures_run _)
        (λ w e q. no_error _ w e (attempt-Returns _) q)
        (elim [
          | err e ↦ λ (w, q).
              free_from_connector-Puts (IsShown d) 1
                (inl (
                  refl,
                  refl,
                  no_target
                      (no_encoder conn mode usable ((get_encoder_of-Blames d conn).fault w e q)),
                ))
                conn
          | ok enc ↦ λ (w, q).
              with_encoder-Puts conn mode enc usable ((get_encoder_of-Ensures d conn).post w enc q)
        ])

  close-Puts : Excuse d → Puts (IsShown d) (do give_back card; pure 1)
  close-Puts excuse =
      return-Puts (IsShown d) (search silence)
        (then-Succeeds _ (give_back-Returns _) (pure-Succeeds _ 1 (inl (refl, refl, excuse))))

  free-Puts : Excuse d → Puts (IsShown d) (do give_back resources; give_back card; pure 1)
  free-Puts excuse = return-Puts (IsShown d) (search silence) (
      then-Succeeds _ (give_back-Returns _)
        (then-Succeeds _ (give_back-Returns _) (pure-Succeeds _ 1 (inl (refl, refl, excuse)))))

  connectors-Puts :
      (t : ℕ) (res : Resources)
      → d.get_resources t ≡ ok res
      → Puts (IsShown d) (
          attempt (search_connectors d res.connectors) >>= elim [
            | err _ ↦ do give_back resources; give_back card; pure 1
            | ok f ↦ with_connector d f
          ])
  connectors-Puts t res got =
      silent-Puts (Attempted (search_connectors d res.connectors)) _
        (attempt-IsSilent (search_connectors-IsSilent d _)) (attempt-Ensures_run _)
        (λ w e q. no_error _ w e (attempt-Returns _) q)
        (elim [
          | err e ↦ λ (w, q). free-Puts (
              no_target
                (no_connector t res got ((search_connectors-Blames d res.connectors).fault w e q)))
          | ok f ↦ λ (w, q).
              with_connector-Puts f ((search_connectors-Ensures d res.connectors).post w f q)
        ])

  resources-Puts : Puts (IsShown d) (
      attempt (ask d.get_resources) >>= elim [
        | err _ ↦ do give_back card; pure 1
        | ok res ↦ do
          hold resources
          found ← attempt (search_connectors d res.connectors)
          elim found [
            | err _ ↦ do give_back resources; give_back card; pure 1
            | ok f ↦ with_connector d f
          ]
      ])
  resources-Puts =
      silent-Puts (Answered d.get_resources) _ (attempt-IsSilent (ask-IsSilent _))
        (attempt-Ensures _) (λ w e q. no_error _ w e (attempt-Returns _) q)
        (elim [
          | err e ↦ λ (t, q). close-Puts (no_target (no_resources t e q))
          | ok res ↦ λ (t, got).
              silent-Puts _ _ (hold-IsSilent _) (record { post = λ w r e. tt })
                (λ w e q. no_error _ w e (hold-Returns _) q) λ _ _. connectors-Puts t res got
        ])

  main-Puts : Puts (IsShown d) (main d)
  unfolding main
  main-Puts =
      silent-Puts (Answered d.open_card) _ (attempt-IsSilent (ask-IsSilent _)) (attempt-Ensures _)
        (λ w e q. no_error _ w e (attempt-Returns _) q)
        (elim [
          | err e ↦ λ (t, q).
              return-Puts _ (pure-IsSilent 1) (pure-Succeeds _ 1 (inl (refl, refl, unopened t e q)))
          | ok _ ↦ λ _.
              silent-Puts _ _ (hold-IsSilent _) (record { post = λ w r e. tt })
                (λ w e q. no_error _ w e (hold-Returns _) q) λ _ _. resources-Puts
        ])

  -- Whatever the device answers, `main` returns. Either it exits with 1 and has put nothing out, and then the device
  -- at some moment refused the `open` or its resources; or refused each connector that they name or gave it without a
  -- connection or a mode; or gave for a usable one no encoder; or refused, for the first mode of a usable one, a buffer or
  -- the framebuffer, the offset or the mapping of the buffer that it gave.
  -- Or it has filled one buffer in red, of the size of the first mode of a connected connector that the device gave,
  -- and has asked to show its framebuffer in that mode on that connector and the CRTC of its encoder: it
  -- exits with 0 and the buffer is on the screen if that was accepted, and with 1 if it was refused.
  pub main-status :
      (w : Session)
      → (calls : List Call) × ((main d w).1.out ≡ w.out ++ calls) × IsShown d (main d w).0 calls
  main-status = main-Puts.put
