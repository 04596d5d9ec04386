-- ===== src/Drm/Modeset/Frees.antt =====
-- The clean-up labels of modeset_minimal.c and its unmapping, as rules for what is put out.
use embedded_linux_bsp.Common.{ℕ, List, []}
use embedded_linux_bsp.Common.World.{Result, ok}
use embedded_linux_bsp.Common.World.Ensures.{
  no_error, Returns, pure-Returns, give_back-Returns, then-Succeeds, pure-Succeeds,
}
use embedded_linux_bsp.Common.World.Puts.{
  Puts, silent-Puts, return-Puts, silence, give_back-IsSilent,
}
use embedded_linux_bsp.Drm.Env.{Connector, Encoder, Call, object_resource}
use embedded_linux_bsp.Drm.Dumb.{Map, null, map_failed, at, DumbBuffer, unmap}
use embedded_linux_bsp.Drm.Dumb.Silent.{unmap-IsSilent}
use embedded_linux_bsp.Drm.Modeset.{free_from_encoder, free_from_connector, take_down}

module _ (P : Result ℕ → List Call → Type 0) (status : ℕ) (p : P (ok status) []) where
  pub free_from_connector-Puts : (conn : Connector) → Puts P (free_from_connector conn status)
  unfolding free_from_connector
  free_from_connector-Puts conn = return-Puts P (search silence) (
      then-Succeeds _ (give_back-Returns _) (
        then-Succeeds _ (give_back-Returns _)
          (then-Succeeds _ (give_back-Returns _) (pure-Succeeds _ status p))))

  pub free_from_encoder-Puts :
      (conn : Connector) (enc : Encoder) → Puts P (free_from_encoder conn enc status)
  unfolding free_from_encoder
  free_from_encoder-Puts conn enc = return-Puts P (search silence) (
      then-Succeeds _ (give_back-Returns _) (
        then-Succeeds _ (give_back-Returns _) (
          then-Succeeds _ (give_back-Returns _)
            (then-Succeeds _ (give_back-Returns _) (pure-Succeeds _ status p)))))

unmap-Returns : (m : Map) → Returns (unmap m)
unfolding unmap
unmap-Returns null = pure-Returns tt
unmap-Returns map_failed = pure-Returns tt
unmap-Returns (at a) = give_back-Returns _

pub take_down-Puts :
    (P : Result ℕ → List Call → Type 0) (conn : Connector) (enc : Encoder) (buf : DumbBuffer)
    → P (ok 0) []
    → Puts P (take_down conn enc buf)
unfolding take_down
take_down-Puts P conn enc buf p =
    silent-Puts _ P (unmap-IsSilent _) (record { post = λ w r e. tt })
      (λ w e q. no_error _ w e (unmap-Returns buf.map) q)
      λ _ _.
        silent-Puts _ P (give_back-IsSilent _) (record { post = λ w r e. tt })
          (λ w e q. no_error _ w e (give_back-Returns _) q)
          λ _ _.
            silent-Puts _ P (give_back-IsSilent _) (record { post = λ w r e. tt })
              (λ w e q. no_error _ w e (give_back-Returns _) q)
              λ _ _. free_from_encoder-Puts P 0 p conn enc
