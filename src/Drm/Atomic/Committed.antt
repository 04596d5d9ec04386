-- ===== src/Drm/Atomic/Committed.antt =====
-- The request that atomic_modeset_minimal.c commits.
use embedded_linux_bsp.Common.{
  ℕ, ◌^◌, ◌<◌, ◌≡◌, refl, ◌⊎◌, inl, inr, true, false, Bool, ltb, List, [], ◌∷◌, ℤ,
}
use embedded_linux_bsp.Common.World.{ok, err, ask, bracket}
use embedded_linux_bsp.Common.World.Ensures.{ask-Ensures, Succeeds-Ensures, Succeeds, no_error}
use embedded_linux_bsp.Common.World.Puts.{
  Puts, silent-Puts, end-Puts, emit-Puts, bracket-Puts, Puts-map, ask-IsSilent,
}
use embedded_linux_bsp.Drm.Env.{Device, Action, Mode, Call, blob, request, object_resource}
use embedded_linux_bsp.Drm.Dumb.{DumbBuffer}
use embedded_linux_bsp.Drm.Dumb.Made.{IsBufferOf}
use embedded_linux_bsp.Drm.Connector.{Target}
use embedded_linux_bsp.Drm.Connector.Found.{IsTarget}
use embedded_linux_bsp.Drm.Atomic.Lookup.{IsNamed, IsPlaneOf}
use embedded_linux_bsp.Drm.Atomic.Request.{AddsAll, full_screen, build_request-Succeeds}
use embedded_linux_bsp.Drm.Atomic.Silent.{load_props-IsSilent, build_request-IsSilent}
use embedded_linux_bsp.Drm.Atomic.{ObjectProps, Item, build_request, commit, commit_request, show}
use embedded_linux_bsp.Drm.Atomic.Named.{IsNamedBy, Any, load_props-Ensures, load_props-Returns}

-- What a request is about: the target and its plane, the buffer, and the blob.
pub record IsSetting (d : Device) (target : Target) (plane_id : ℕ) (buf : DumbBuffer) : Type 0 where
  pub found : IsTarget d target
  pub plane : IsPlaneOf d target.crtc_id plane_id
  pub buffer : IsBufferOf d target.mode buf

-- A request that shows the buffer on the whole screen, with properties of the right names.
pub record IsRequest (d : Device) (target : Target) (plane_id : ℕ) (buf : DumbBuffer)
    (req : List Item) : Type 0 where
  pub blob_id : ℕ
  pub blob_at : ℕ
  pub blob_made : d.create_property_blob blob_at target.mode ≡ ok blob_id
  pub props : ObjectProps
  pub named : IsNamedBy d props
  pub conn_crtc_prop : ℕ
  pub prop_named : IsNamed d "CRTC_ID" conn_crtc_prop
  pub items : req ≡ full_screen target plane_id blob_id conn_crtc_prop props buf

abbrev pub green : Target → DumbBuffer → Call
green target buf = Call.fill_color buf.fb_id target.mode.hdisplay target.mode.vdisplay 0x0000ff00

-- What can be wrong before the request is committed.
abbrev pub IsRefused : Device → Mode → Type 0
IsRefused d mode =
    ((t : ℕ) × (e : ℤ) × (d.create_property_blob t mode ≡ err e))
    ⊎ ((t : ℕ) × (e : ℤ) × (d.atomic_alloc t ≡ err e))

abbrev pub IsCommit : Device → Target → ℕ → DumbBuffer → List Call → Type 0
IsCommit d target plane_id buf calls =
    ((calls ≡ []) × IsRefused d target.mode)
    ⊎ ((req : List Item) × IsRequest d target plane_id buf req × (calls ≡ Call.commit req ∷ []))

module _ (d : Device) (adds : AddsAll d) where
  module _ (target : Target) (plane_id : ℕ) (buf : DumbBuffer)
      (narrow : target.mode.hdisplay < 2 ^ 15) (low : target.mode.vdisplay < 2 ^ 15) where
    commit_request-Puts :
        (blob_id blob_at : ℕ)
        → d.create_property_blob blob_at target.mode ≡ ok blob_id
        → Puts
            (λ _ calls. IsCommit d target plane_id buf calls)
            (commit_request d target plane_id blob_id buf)
    unfolding commit_request commit ask
    commit_request-Puts blob_id blob_at made =
        silent-Puts (IsNamedBy d) _ (load_props-IsSilent d _ _ _) (load_props-Ensures d _ _ _)
          (λ w e q. no_error _ w e (load_props-Returns d _ _ _) q)
          λ props named.
            silent-Puts Any _ (ask-IsSilent _) (record { post = λ w r e. tt })
              (λ w e q. inl (refl, inr (w.tick, e, q)))
              λ _ _. bracket-Puts _ request (
                silent-Puts
                  (λ req.
                    (q : ℕ) × IsNamed d "CRTC_ID" q
                    × (req ≡ full_screen target plane_id blob_id q props buf))
                  _ (build_request-IsSilent d _ _ _ _ _) (Succeeds-Ensures _ (built blob_id props))
                  (λ w e q. no_error _ w e (built blob_id props) q)
                  λ req (q, prop, items). emit-Puts _ (Call.commit req) (
                    end-Puts _ (ask-IsSilent _) λ w. inr (
                      req,
                      record {
                        blob_id = blob_id;
                        blob_at = blob_at;
                        blob_made = made;
                        props = props;
                        named = named;
                        conn_crtc_prop = q;
                        prop_named = prop;
                        items = items;
                      },
                      refl,
                    )))
      where
        built :
            (blob_id : ℕ) (props : ObjectProps)
            → Succeeds
                (λ req.
                  (q : ℕ) × IsNamed d "CRTC_ID" q
                  × (req ≡ full_screen target plane_id blob_id q props buf))
                (build_request d target plane_id blob_id props buf)
        built blob_id props =
            build_request-Succeeds d adds target plane_id blob_id props buf narrow low

    pub show-Puts :
        Puts
          (λ _ calls.
            (rest : List Call) × IsCommit d target plane_id buf rest
            × (calls ≡ green target buf ∷ rest))
          (show d target plane_id buf)
    unfolding show ask
    show-Puts = emit-Puts _ (green target buf) (
        silent-Puts (λ blob_id. (t : ℕ) × (d.create_property_blob t target.mode ≡ ok blob_id)) _
          (ask-IsSilent _) (ask-Ensures _ _ λ t b e. (t, e))
          (λ w e q. ([], inl (refl, inl (w.tick, e, q)), refl))
          λ blob_id (t, made). choose (ltb 0 blob_id) blob_id (commit_request-Puts blob_id t made))
      where
        Rest : List Call → Type 0
        Rest calls =
            (rest : List Call) × IsCommit d target plane_id buf rest
            × (green target buf ∷ calls ≡ green target buf ∷ rest)

        choose :
            (b : Bool) (blob_id : ℕ)
            → Puts
                (λ _ calls. IsCommit d target plane_id buf calls)
                (commit_request d target plane_id blob_id buf)
            → Puts
                (λ _ calls. Rest calls)
                (let act : Action (Unit {0}) = elim b [
                  | true ↦ bracket (blob blob_id) (commit_request d target plane_id blob_id buf)
                  | false ↦ commit_request d target plane_id blob_id buf
                ] in
                  act)
        choose true blob_id h =
            bracket-Puts _ (blob blob_id) (Puts-map _ _ (λ r c i. (c, i, refl)) h)
        choose false blob_id h = Puts-map _ _ (λ r c i. (c, i, refl)) h
