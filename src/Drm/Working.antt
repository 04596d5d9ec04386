-- ===== src/Drm/Working.antt =====
-- The tablet of the tests against the reasons that the atomic and the modeset program can have to show nothing.
use embedded_linux_bsp.Common.{
  ℕ, zero, suc, ◌≡◌, ◌≢◌, ◌==◌, refl, sym, ◌∙◌, ap, inl, inr, none, some, [], ◌∷◌, get_elem?, subst,
  arith, if◌then◌else◌, All,
}
use embedded_linux_bsp.Drm.Env.{Mode, Connector, Encoder, Resources, Plane, Property, ObjectType}
use embedded_linux_bsp.Drm.Samples.{screen, tablet}
use embedded_linux_bsp.Drm.Connector.{first_mode, Target}
use embedded_linux_bsp.Drm.Connector.Found.{IsTarget}
use embedded_linux_bsp.Drm.Connector.Missing
use embedded_linux_bsp.Drm.Connector.Missing.{IsPassedOver, HasNoEncoder}
use embedded_linux_bsp.Drm.Dumb.Refused.{
  IsRefused, no_memory, no_framebuffer, no_offset, no_mapping,
}
use embedded_linux_bsp.Drm.Atomic.Missing as PlaneMissing
use embedded_linux_bsp.Drm.Atomic.PropId.{IsPropId, IsFoundIn}
use embedded_linux_bsp.Drm.Atomic.Shown as Atomic
use embedded_linux_bsp.Drm.Modeset.Shown as Modeset

not_refused : (mode : Mode) → IsRefused tablet mode → ⊥
not_refused mode (no_memory t e q) = cc q
not_refused mode (no_framebuffer creq c t e q) = cc q
not_refused mode (no_offset creq c t e q) = cc q
not_refused mode (no_mapping creq c t offset q t' e q') = cc q'

connector_31 : IsPassedOver tablet 31 → ⊥
unfolding first_mode
connector_31 (inl (t, e, q)) = cc q
connector_31 (inr (t, conn, got, useless)) =
    let same : screen 31 ≡ conn = cc got in
    let first : first_mode (screen 31) ≡ none = ap first_mode same ∙ useless in cc first

abbrev answer : Resources
answer = record { connectors = 30 ∷ 31 ∷ []; crtcs = 49 ∷ 50 ∷ [] }

abbrev plane_of : ℕ → Plane
plane_of id = record { plane_id = id; possible_crtcs = if id == 59 then 1 else 3 }

connected_there : Missing.IsMissing tablet → ⊥
connected_there (Missing.no_resources t e q) = cc q
connected_there (Missing.no_connector t res got all) =
    let whole : answer ≡ res = cc got in
    let same : res.connectors ≡ 30 ∷ 31 ∷ [] = sym (ap (λ (r : Resources). r.connectors) whole) in
    connector_31 (subst (All (IsPassedOver tablet)) same all).1.0
connected_there (Missing.no_encoder conn mode (t, id, got, first) (inl unnamed)) =
    let same : screen id ≡ conn = cc got in
    let e : 40 ≡ 0 = ap (λ (c : Connector). c.encoder_id) same ∙ unnamed in
    absurd (omega (arith, e))
connected_there (Missing.no_encoder conn mode usable (inr (t, e, q))) = cc q

-- the type of the plane 60, by its only property
type_1 : (type_id : ℕ) → IsPropId tablet "type" 60 ObjectType.plane type_id → type_id ≡ 1
type_1 type_id (inl (t, e, q, z)) = cc q
type_1 type_id (inr (t, props, got, found)) =
    let same : props ≡ (1, 1) ∷ [] = cc got in
    elim (subst (λ l. IsFoundIn tablet "type" l type_id) same found) [
      | inl (_, inl (t', prop, given, named, number)) ↦
          let p : record { prop_id = 1; name = "type" } ≡ prop = cc given in
          sym number ∙ sym (ap (λ (x : Property). x.prop_id) p)
      | inl (_, inr none_there) ↦ absurd none_there
      | inr (_, (inl (t', e, q), _)) ↦ absurd (cc q)
      | inr (_, (inr (t', prop, given, inl other), _)) ↦
          let p : record { prop_id = 1; name = "type" } ≡ prop = cc given in
          absurd (other (sym (ap (λ (x : Property). x.name) p)))
      | inr (_, (inr (t', prop, given, inr unnumbered), _)) ↦
          let p : record { prop_id = 1; name = "type" } ≡ prop = cc given in
          let z : 1 ≡ 0 = ap (λ (x : Property). x.prop_id) p ∙ unnumbered in
          absurd (omega (arith, z))
    ]

primary_60 : PlaneMissing.IsNotPrimary tablet 1 (plane_of 60) → ⊥
primary_60 (PlaneMissing.far h) = omega (arith, h)
primary_60 (PlaneMissing.no_bit h) = h refl
primary_60 (PlaneMissing.no_properties t e q) = cc q
primary_60 (PlaneMissing.other_type type_id named t props got others) =
    let same : props ≡ (1, 1) ∷ [] = cc got in
    (subst (All (λ entry. entry ≢ (type_id, 1))) same others).0
      (ap (λ n. (n, 1)) (sym (type_1 type_id named)))

plane_60 : PlaneMissing.IsPassedOver tablet 1 60 → ⊥
plane_60 (inl (t, e, q)) = cc q
plane_60 (inr (t, p, got, not_primary)) =
    let same : p ≡ plane_of 60 = cc got in
    primary_60 (subst (PlaneMissing.IsNotPrimary tablet 1) same not_primary)

second : (index : ℕ) → get_elem? answer.crtcs index ≡ some 50 → index ≡ 1
second zero q = absurd (ground (arith, q))
second (suc zero) q = refl
second (suc (suc i)) q = cc q

plane_there : PlaneMissing.IsMissing tablet 50 → ⊥
plane_there (PlaneMissing.no_resources t e q) = cc q
plane_there (PlaneMissing.not_listed t res got all) =
    let whole : answer ≡ res = cc got in
    let same : res.crtcs ≡ 49 ∷ 50 ∷ [] = sym (ap (λ (r : Resources). r.crtcs) whole) in
    (subst (All (λ x. x ≢ 50)) same all).1.0 refl
plane_there (PlaneMissing.no_planes t e q) = cc q
plane_there (PlaneMissing.no_primary t res got index at t' planes given all) =
    let whole : answer ≡ res = cc got in
    let same : res.crtcs ≡ 49 ∷ 50 ∷ [] = sym (ap (λ (r : Resources). r.crtcs) whole) in
    let i : index ≡ 1 = second index (subst (λ l. get_elem? l index ≡ some 50) same at) in
    let listed : planes ≡ 59 ∷ 60 ∷ [] = cc given in
    plane_60 (
      subst (λ n. PlaneMissing.IsPassedOver tablet n 60) i
        (subst (All (PlaneMissing.IsPassedOver tablet index)) listed all).1.0)

-- the CRTC of any target on the tablet
crtc_50 : (t : Target) → IsTarget tablet t → 50 ≡ t.crtc_id
crtc_50 t target =
    let (_, q) = target.bound in
    let same : record { encoder_id = target.conn.encoder_id; crtc_id = 50 } ≡ target.enc = cc q in
    ap (λ (e : Encoder). e.crtc_id) same ∙ sym target.crtc_id

atomic_works : Atomic.Excuse tablet → ⊥
atomic_works (Atomic.unopened t e q) = cc q
atomic_works (Atomic.no_target m) = connected_there m
atomic_works (Atomic.no_plane t target m) =
    plane_there (subst (PlaneMissing.IsMissing tablet) (sym (crtc_50 t target)) m)
atomic_works (Atomic.no_space t target m) = not_refused t.mode m

modeset_works : Modeset.Excuse tablet → ⊥
modeset_works (Modeset.unopened t e q) = cc q
modeset_works (Modeset.no_target m) = connected_there m
modeset_works (Modeset.no_space conn mode usable m) = not_refused mode m
