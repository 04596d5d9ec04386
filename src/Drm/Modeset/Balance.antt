-- ===== src/Drm/Modeset/Balance.antt =====
-- What the returns of modeset_minimal.c give back.
use embedded_linux_bsp.Common.{ℕ, ◌≡◌, ◌∙◌, ap}
use embedded_linux_bsp.Common.World.{pure, ◌>>=◌, give_back}
use embedded_linux_bsp.Common.Ledger.{Ledger, acquire, release, release-acquire}
use embedded_linux_bsp.Drm.Env.{
  Session, Connector, Encoder, Object, card, resources, connector, encoder, framebuffer, gem,
  object_resource,
}
use embedded_linux_bsp.Drm.Dumb.{DumbBuffer}
use embedded_linux_bsp.Drm.Dumb.Balance.{with_map, unmap-Ends}
use embedded_linux_bsp.Drm.Modeset.{free_from_encoder, free_from_connector, take_down}

abbrev pub from_connector : Connector → Ledger Object → Ledger Object
from_connector conn l = acquire (connector conn.connector_id) (acquire resources (acquire card l))

abbrev pub from_encoder : Connector → Encoder → Ledger Object → Ledger Object
from_encoder conn enc l = acquire (encoder enc.encoder_id) (from_connector conn l)

pub free_from_connector-ledger :
    (conn : Connector) (status : ℕ) (l : Ledger Object) (w : Session)
    → w.ledger ≡ from_connector conn l
    → (free_from_connector conn status w).1.ledger ≡ l
unfolding free_from_connector ◌>>=◌ give_back pure
free_from_connector-ledger conn status l w e =
    ap (λ x. release card (release resources (release (connector conn.connector_id) x))) e
    ∙ ap (λ x. release card (release resources x)) (release-acquire (connector conn.connector_id) _)
    ∙ ap (release card) (release-acquire resources _)
    ∙ release-acquire card l

free_from_encoder-ledger :
    (conn : Connector) (enc : Encoder) (status : ℕ) (l : Ledger Object) (w : Session)
    → w.ledger ≡ from_encoder conn enc l
    → (free_from_encoder conn enc status w).1.ledger ≡ l
unfolding free_from_encoder free_from_connector ◌>>=◌ give_back pure
free_from_encoder-ledger conn enc status l w e =
    free_from_connector-ledger conn status l
      (record w { ledger = release (encoder enc.encoder_id) w.ledger })
      (ap (release (encoder enc.encoder_id)) e ∙ release-acquire (encoder enc.encoder_id) _)

pub take_down-ledger :
    (conn : Connector) (enc : Encoder) (buf : DumbBuffer) (l : Ledger Object) (w : Session)
    → w.ledger
      ≡ with_map buf.map
          (acquire (framebuffer buf.fb_id) (acquire (gem buf.handle) (from_encoder conn enc l)))
    → (take_down conn enc buf w).1.ledger ≡ l
unfolding take_down ◌>>=◌ give_back
take_down-ledger conn enc buf l w e =
    let u =
      unmap-Ends buf.map
        (acquire (framebuffer buf.fb_id) (acquire (gem buf.handle) (from_encoder conn enc l))) w
        e in
    rw (u.fine, ◌>>=◌)
      (free_from_encoder-ledger conn enc 0 l _ (
        ap (λ x. release (gem buf.handle) (release (framebuffer buf.fb_id) x)) u.left
        ∙ ap (release (gem buf.handle)) (release-acquire (framebuffer buf.fb_id) _)
        ∙ release-acquire (gem buf.handle) _))
