-- ===== src/Drm/Atomic/Request.antt =====
-- The request that atomic_modeset_minimal.c commits.
use Prim.Native.String.{String}
use mathlib.Core.List.{append-nil, append_assoc}
use embedded_linux_bsp.Common.{
  ℕ, ◌*◌, ◌^◌, ◌<◌, ◌≤◌, ◌≡◌, refl, sym, ◌∙◌, subst, true, false, Bool, List, [], ◌∷◌, ◌++◌, arith,
  ltb,
}
use embedded_linux_bsp.Common.World.{Result, ok, err, pure, attempt, ask}
use embedded_linux_bsp.Common.World.Ensures.{
  Succeeds, pure-Succeeds, bracket-Succeeds, >>=-Succeeds, Succeeds-and,
}
use embedded_linux_bsp.Drm.Atomic.Lookup.{IsNamed, get_prop_id-Ensures}
use embedded_linux_bsp.Drm.Env.{Device, Action, ObjectType, object_resource, Object, Call}
use embedded_linux_bsp.Drm.Dumb.{DumbBuffer}
use embedded_linux_bsp.Drm.Connector.{Target}
use embedded_linux_bsp.Drm.Atomic.{
  Item, ObjectProps, scan_props, get_prop_id, shift_16, wanted, add_all, build_request,
}

-- A width below 2^15 reaches the plane as a 16.16 fixed-point number.
shift_16_lem : (x : ℕ) → x < 2 ^ 15 → shift_16 x ≡ 65536 * x
unfolding shift_16
shift_16_lem x h = ground arith

-- A width from 2^15 on that still fits the 16 bits of the mode becomes, in the `uint64_t` of the property, a
-- number above 2^63: the shift of an `int` by 16 reaches the sign bit, which is then extended.
pub shift_16_overflow : (x : ℕ) → 2 ^ 15 ≤ x → x < 2 ^ 16 → 2 ^ 63 < shift_16 x
unfolding shift_16
shift_16_overflow x lo hi = ground arith

-- The items of the request that shows a buffer of the mode's size on the whole screen: the
-- source rectangle is the buffer in 16.16 fixed point, the target rectangle is the mode.
abbrev pub full_screen :
    (target : Target) (plane_id blob_id conn_crtc_prop : ℕ) → ObjectProps → DumbBuffer → List Item
full_screen t plane_id blob_id conn_crtc_prop p buf =
    (t.conn_id, conn_crtc_prop, t.crtc_id)
    ∷ (t.crtc_id, p.mode_id, blob_id)
    ∷ (t.crtc_id, p.active, 1)
    ∷ (plane_id, p.fb_id, buf.fb_id)
    ∷ (plane_id, p.crtc_id, t.crtc_id)
    ∷ (plane_id, p.src_x, 0)
    ∷ (plane_id, p.src_y, 0)
    ∷ (plane_id, p.src_w, 65536 * t.mode.hdisplay)
    ∷ (plane_id, p.src_h, 65536 * t.mode.vdisplay)
    ∷ (plane_id, p.crtc_x, 0)
    ∷ (plane_id, p.crtc_y, 0)
    ∷ (plane_id, p.crtc_w, t.mode.hdisplay)
    ∷ (plane_id, p.crtc_h, t.mode.vdisplay)
    ∷ []

abbrev pub Any : {A : Type 0} → A → Type 0
Any _ = Unit

attempt-Succeeds :
    {A : Type 0} (f : ℕ → Result A)
    → Succeeds {R = Object} {O = Call} (λ r. (t : ℕ) × (f t ≡ r)) (attempt (ask f))
unfolding attempt ask
attempt-Succeeds f = record { returns = λ w. (f w.tick, refl, (w.tick, refl)) }

module _ (d : Device) where
  -- `get_prop_id` always returns.
  scan_props-Succeeds : (name : String) (ps : List (ℕ × ℕ)) → Succeeds Any (scan_props d name ps)
  unfolding scan_props
  scan_props-Succeeds name [] = pure-Succeeds _ 0 tt
  scan_props-Succeeds name (p ∷ rest) =
      let ih = scan_props-Succeeds name rest in
      >>=-Succeeds _ _ (attempt-Succeeds _) (elim [
        | err _ ↦ λ _. ih
        | ok prop ↦ λ _.
            >>=-Succeeds Any _ (bracket-Succeeds _ _ (pure-Succeeds _ _ tt))
              λ id _. choose (ltb 0 id) id ih
      ])
    where
      choose :
          (b : Bool) (id : ℕ) {k : Action ℕ}
          → Succeeds Any k
          → Succeeds Any (elim b [ true ↦ pure id | false ↦ k ])
      choose true id hk = pure-Succeeds _ id tt
      choose false id hk = hk

  pub get_prop_id-Succeeds :
      (obj : ℕ) (t : ObjectType) (name : String) → Succeeds Any (get_prop_id d obj t name)
  unfolding get_prop_id
  get_prop_id-Succeeds obj t name = >>=-Succeeds _ _ (attempt-Succeeds _) (elim [
    | err _ ↦ λ _. pure-Succeeds _ 0 tt
    | ok props ↦ λ _. bracket-Succeeds _ _ (scan_props-Succeeds name props)
  ])

  -- No item is refused for want of memory.
  abbrev pub AddsAll : Type 0
  AddsAll = (t object prop value : ℕ) → d.atomic_add_property t object prop value ≡ ok tt

  module _ (adds : AddsAll) where
    add_all-Succeeds :
        (items req : List Item) → Succeeds (λ r. r ≡ req ++ items) (add_all d items req)
    unfolding add_all
    add_all-Succeeds [] req = pure-Succeeds _ req (sym (append-nil req))
    add_all-Succeeds ((object, prop, value) ∷ rest) req =
        >>=-Succeeds _ _ (attempt-Succeeds _) λ r (t, q).
          let e : r ≡ ok tt = sym q ∙ adds t object prop value in
          rw e (
            subst (λ x. Succeeds (λ y. y ≡ x) (add_all d rest (req ++ (object, prop, value) ∷ [])))
              (append_assoc req ((object, prop, value) ∷ []) rest)
              (add_all-Succeeds rest (req ++ (object, prop, value) ∷ [])))

    -- If the library accepts every item, and the width and height of the mode are below 2^15, then the request
    -- is built, and it holds exactly the thirteen items of
    -- `full_screen`, in order, with a number for the connector that is 0 or that of a property named CRTC_ID: the buffer at 16.16 fixed-point size as the source, the mode as the target.
    pub build_request-Succeeds :
        (target : Target) (plane_id blob_id : ℕ) (props : ObjectProps) (buf : DumbBuffer)
        → target.mode.hdisplay < 2 ^ 15
        → target.mode.vdisplay < 2 ^ 15
        → Succeeds
            (λ req.
              (conn_crtc_prop : ℕ) × IsNamed d "CRTC_ID" conn_crtc_prop
              × (req ≡ full_screen target plane_id blob_id conn_crtc_prop props buf))
            (build_request d target plane_id blob_id props buf)
    unfolding build_request wanted
    build_request-Succeeds target plane_id blob_id props buf narrow low =
        >>=-Succeeds _ _
          (Succeeds-and Any (IsNamed d "CRTC_ID") (get_prop_id-Succeeds _ _ _)
            (get_prop_id-Ensures d _ _ _))
          λ q (_, named). record {
            returns = λ w.
                let (r, done, same) =
                  (add_all-Succeeds (wanted target plane_id blob_id q props buf) []).returns w in
                (r, done, (q, named, same ∙ fixed q));
          }
      where
        fixed :
            (q : ℕ)
            → wanted target plane_id blob_id q props buf
              ≡ full_screen target plane_id blob_id q props buf
        fixed q =
            rw (shift_16_lem target.mode.hdisplay narrow, shift_16_lem target.mode.vdisplay low)
              refl
