-- ===== src/Drm/Modeset/Left.antt =====
-- What modeset_minimal.c holds at its end, whatever the device answers.
use embedded_linux_bsp.Common.{
  ℕ, ◌+◌, ◌<◌, ◌≡◌, refl, ◌∙◌, ap, ◌⊎◌, inl, inr, true, false, Bool-cases, lt→ltb, nonzero, ℤ,
}
use embedded_linux_bsp.Common.World.{
  Result, Result-cases, ok, err, pure, ◌>>=◌, attempt, ask, emit, hold, give_back,
}
use embedded_linux_bsp.Common.Ledger.{Ledger, acquire, release, release-acquire}
use embedded_linux_bsp.Drm.Env.{
  Device, Session, Mode, Connector, Encoder, Object, card, resources, connector, encoder,
  framebuffer, gem, mapping, object_resource, same_object,
}
use embedded_linux_bsp.Drm.Dumb.{at, DumbBuffer, no_buffer, create_dumb_buffer}
use embedded_linux_bsp.Drm.Dumb.Balance.{IsNumbered, holding, Leaves, create_dumb_buffer-Leaves}
use embedded_linux_bsp.Drm.Dumb.Whole.{IsWhole, create_dumb_buffer_whole}
use embedded_linux_bsp.Drm.Dumb.Other.{release-holding}
use embedded_linux_bsp.Drm.Dumb.Complete.{create_dumb_buffer-Ensures}
use embedded_linux_bsp.Drm.Connector.{search_connectors, get_encoder_of}
use embedded_linux_bsp.Drm.Connector.First.{search_connectors-Acquires, get_encoder_of-IsBalanced}
use embedded_linux_bsp.Drm.Modeset.Balance.{
  from_connector, from_encoder, free_from_connector-ledger, take_down-ledger,
}
use embedded_linux_bsp.Drm.Modeset.{free_from_encoder, present, with_encoder, with_connector, main}

-- A `create_dumb_buffer` that failed half way, and what it had created stays held.
pub record IsHalfMade (d : Device) (l : Ledger Object) (run : Result ℕ × Session) : Type 0 where
  pub mode : Mode
  pub start : Session
  pub buf : DumbBuffer
  pub ret : ℤ
  pub created : (create_dumb_buffer d mode.hdisplay mode.vdisplay no_buffer start).0 ≡ ok (buf, ret)
  pub failed : nonzero ret ≡ true
  pub status : run.0 ≡ ok 1
  pub left : run.1.ledger ≡ holding buf l

-- A `drmModeSetCrtc` that is refused, and everything stays held.
pub record IsUnshown (d : Device) (l : Ledger Object) (run : Result ℕ × Session) : Type 0 where
  pub conn : Connector
  pub mode : Mode
  pub enc : Encoder
  pub buf : DumbBuffer
  pub moment : ℕ
  pub code : ℤ
  pub refused : d.set_crtc moment enc.crtc_id buf.fb_id conn.connector_id mode ≡ err code
  pub status : run.0 ≡ ok 1
  pub left : run.1.ledger ≡ holding buf (from_encoder conn enc l)

abbrev pub IsLeft : Device → Ledger Object → Result ℕ × Session → Type 0
IsLeft d l run = (run.1.ledger ≡ l) ⊎ (IsHalfMade d l run ⊎ IsUnshown d l run)

-- Giving back the encoder, the connector, the resources and the card under a buffer.
free-holding :
    (conn : Connector) (enc : Encoder) (b : DumbBuffer) (l : Ledger Object) (w : Session)
    → w.ledger ≡ holding b (from_encoder conn enc l)
    → ((free_from_encoder conn enc 1 w).0 ≡ ok 1)
      × ((free_from_encoder conn enc 1 w).1.ledger ≡ holding b l)
unfolding free_from_encoder ◌>>=◌ give_back pure
free-holding conn enc b l w e = (
  refl,
  ap (λ x. release card (release resources (release (connector conn.connector_id) x)))
        (ap (release (encoder enc.encoder_id)) e
          ∙ below (encoder enc.encoder_id) (from_connector conn l) (λ a q. refl) refl refl)
      ∙ ap (λ x. release card (release resources x))
          (below (connector conn.connector_id) (acquire resources (acquire card l)) (λ a q. refl)
            refl refl)
      ∙ ap (release card) (below resources (acquire card l) (λ a q. refl) refl refl)
      ∙ below card l (λ a q. refl) refl refl,
)
  where
    below :
        (r : Object) (m : Ledger Object)
        → ((a : ℕ) → b.map ≡ at a → same_object r (mapping a) ≡ false)
        → same_object r (framebuffer b.fb_id) ≡ false
        → same_object r (gem b.handle) ≡ false
        → release r (holding b (acquire r m)) ≡ holding b m
    below r m no_map no_fb no_gem =
        release-holding r b (acquire r m)
          (record { no_map = no_map; no_fb = no_fb; no_gem = no_gem })
        ∙ ap (holding b) (release-acquire r m)

module _ (d : Device) (numbered : IsNumbered d) (l : Ledger Object) where
  present-IsLeft :
      (conn : Connector) (mode : Mode) (enc : Encoder) (buf : DumbBuffer) (w : Session)
      → 0 < buf.handle
      → 0 < buf.fb_id
      → w.ledger ≡ holding buf (from_encoder conn enc l)
      → IsLeft d l (present d conn mode enc buf w)
  unfolding present ◌>>=◌ attempt ask emit pure
  present-IsLeft conn mode enc buf w there shown e =
      elim (Result-cases (d.set_crtc w.tick enc.crtc_id buf.fb_id conn.connector_id mode)) [
        | inl (x, q) ↦ inr (
            inr (record {
              conn = conn;
              mode = mode;
              enc = enc;
              buf = buf;
              moment = w.tick;
              code = x;
              refused = q;
              status = rw (q, ◌>>=◌, attempt) refl;
              left = rw (q, ◌>>=◌, attempt) e;
            }))
        | inr (_, q) ↦ inl (
            rw (q, ◌>>=◌, attempt)
              (take_down-ledger conn enc buf l _
                (rw (lt→ltb 0 buf.fb_id shown, lt→ltb 0 buf.handle there) at e)))
      ]

  with_encoder-IsLeft :
      (conn : Connector) (mode : Mode) (enc : Encoder) (w : Session)
      → w.ledger ≡ from_connector conn l
      → IsLeft d l (with_encoder d conn mode enc w)
  unfolding with_encoder ◌>>=◌ hold
  with_encoder-IsLeft conn mode enc w e = elim (Bool-cases (nonzero c.ret)) [
    | inl bad ↦
        let (one, left) = free-holding conn enc c.buf l _ c.held in
        inr (
          inl (record {
            mode = mode;
            start = v;
            buf = c.buf;
            ret = c.ret;
            created = c.returned;
            failed = bad;
            status = rw (c.returned, ◌>>=◌, bad) one;
            left = rw (c.returned, ◌>>=◌, bad) left;
          }))
    | inr good ↦
        let (there, shown) =
          (create_dumb_buffer-Ensures d numbered mode.hdisplay mode.vdisplay).post v (c.buf, c.ret)
            c.returned good in
        rw (c.returned, ◌>>=◌, good) (present-IsLeft conn mode enc c.buf _ there shown c.held)
  ]
    where
      v : Session
      v = record w { ledger = acquire (encoder enc.encoder_id) w.ledger }

      c :
          Leaves
            (from_encoder conn enc l)
            (create_dumb_buffer d mode.hdisplay mode.vdisplay no_buffer v)
      c =
          create_dumb_buffer-Leaves d numbered (from_encoder conn enc l) mode.hdisplay mode.vdisplay
            v (ap (acquire (encoder enc.encoder_id)) e)

  with_connector-IsLeft :
      (found : Connector × Mode) (w : Session)
      → w.ledger ≡ from_connector found.0 l
      → IsLeft d l (with_connector d found w)
  unfolding with_connector ◌>>=◌ attempt
  with_connector-IsLeft (conn, mode) w e = elim (Result-cases (get_encoder_of d conn w).0) [
    | inl (x, q) ↦ inl (rw (q, ◌>>=◌, attempt) (free_from_connector-ledger conn 1 l _ (same ∙ e)))
    | inr (enc, q) ↦ rw (q, ◌>>=◌, attempt) (with_encoder-IsLeft conn mode enc _ (same ∙ e))
  ]
    where
      same : (get_encoder_of d conn w).1.ledger ≡ w.ledger
      same = (get_encoder_of-IsBalanced d conn).held w

-- On a device that numbers buffers and framebuffers from 1, `main` ends in one of three ways. All that it took is given
-- back. Or it exits with 1 after a `create_dumb_buffer` that failed half way, and just what that had created stays
-- held. Or it exits with 1 after a `drmModeSetCrtc` that was refused, and all stays held: the card, the resources,
-- the connector, the encoder, and the buffer with its framebuffer and mapping. In particular an exit with 0 leaves nothing.
pub main-IsLeft : (d : Device) → IsNumbered d → (w : Session) → IsLeft d w.ledger (main d w)
unfolding main ◌>>=◌ attempt ask hold give_back pure
main-IsLeft d numbered w = elim (Result-cases (d.open_card w.tick)) [
  | inl (x, q) ↦ inl (rw (q, ◌>>=◌, attempt) refl)
  | inr (_, q) ↦ elim (Result-cases (d.get_resources (w.tick + 1))) [
    | inl (x, r) ↦ inl (rw (q, ◌>>=◌, attempt, r) (release-acquire card w.ledger))
    | inr (res, r) ↦ elim (Result-cases (search_connectors d res.connectors v).0) [
      | inl (x, s) ↦ inl (
          rw (q, ◌>>=◌, attempt, r, s)
            (ap (λ y. release card (release resources y))
                ((search_connectors-Acquires d res.connectors).untouched v x s)
              ∙ ap (release card) (release-acquire resources _)
              ∙ release-acquire card w.ledger))
      | inr (found, s) ↦
          rw (q, ◌>>=◌, attempt, r, s)
            (with_connector-IsLeft d numbered w.ledger found _
              ((search_connectors-Acquires d res.connectors).taken v found s))
    ]
  ]
]
  where
    v : Session
    v = record w { tick = w.tick + 1 + 1; ledger = acquire resources (acquire card w.ledger) }

-- The CRTC is never refused.
abbrev pub IsAccepting : Device → Type 0
IsAccepting d = (t crtc fb conn : ℕ) (mode : Mode) → d.set_crtc t crtc fb conn mode ≡ ok tt

-- On a device that numbers buffers and framebuffers from 1, on which the calls after the creation of a buffer
-- do not fail and the CRTC is never refused, `main` gives back all that it took, whatever else fails.
pub main_modeset_balanced :
    (d : Device)
    → IsNumbered d
    → IsWhole d
    → IsAccepting d
    → (w : Session) → (main d w).1.ledger ≡ w.ledger
main_modeset_balanced d numbered whole accepting w = elim (main-IsLeft d numbered w) [
  | inl same ↦ same
  | inr (inl h) ↦
      h.left
      ∙ ap (λ b. holding b w.ledger)
          (create_dumb_buffer_whole d _ _ h.start h.buf h.ret whole h.created h.failed)
  | inr (inr h) ↦
      cc (h.refused, accepting h.moment h.enc.crtc_id h.buf.fb_id h.conn.connector_id h.mode)
]
