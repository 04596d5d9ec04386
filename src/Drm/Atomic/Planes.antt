-- ===== src/Drm/Atomic/Planes.antt =====
-- The look-ups of code/examples/drm/drm_atomic_commit_flow/userspace/atomic_modeset_minimal.c: a property by its
-- name, and the primary plane of a CRTC.
use Prim.Native.String.{String}
use text.Mathlib.Text.{◌==◌ as str_eq}
use embedded_linux_bsp.Common.{
  ℕ, suc, ◌/◌, ◌%◌, ◌^◌, true, false, Bool, ◌&&◌, ◌||◌, ◌==◌, ltb, Option, none, some, List, [],
  ◌∷◌, if◌then◌else◌,
}
use embedded_linux_bsp.Common.World.{ok, err, pure, ◌>>=◌, attempt, ask, bracket}
use embedded_linux_bsp.Drm.Env.{
  Device, Action, Plane, Property, ObjectType, resources, plane_resources, plane, properties,
  property, object_resource, minus_one,
}

-- `strcmp` and the number of the property, 0 for another name
unfoldable pub matching_id : String → Property → ℕ
matching_id name prop = if str_eq prop.name name then prop.prop_id else 0

-- the first place of a CRTC in the list: its index
unfoldable pub index_of : ℕ → List ℕ → Option ℕ
index_of id [] = none
index_of id (x ∷ xs) =
    if x == id then some 0 else (elim (index_of id xs) [ none ↦ none | some i ↦ some (suc i) ])

-- `plane->possible_crtcs & (1 << crtc_index)`, on 32 bits; C leaves a shift by 32 or more undefined, and no such
-- index is said to be drivable here
unfoldable pub can_drive : ℕ → Plane → Bool
can_drive index p = ltb index 32 && p.possible_crtcs / 2 ^ index % 2 == 1

abbrev pub plane_type_primary : ℕ
plane_type_primary = 1

-- the loop over `props`: one with this number and the value `DRM_PLANE_TYPE_PRIMARY`
unfoldable pub has_primary : ℕ → List (ℕ × ℕ) → Bool
has_primary type_id [] = false
has_primary type_id ((id, value) ∷ rest) =
    (id == type_id && value == plane_type_primary) || has_primary type_id rest

module _ (d : Device) where
  -- the loop of `get_prop_id`: 0 if no property has the name
  unfoldable pub scan_props : String → List (ℕ × ℕ) → Action ℕ
  scan_props name [] = pure 0
  scan_props name ((p, _) ∷ rest) = do
    got ← attempt (ask (λ t. d.get_property t p))
    elim got [
      | err _ ↦ scan_props name rest
      | ok prop ↦ do
        id ← bracket (property prop.prop_id) (pure (matching_id name prop))
        elim (ltb 0 id) [ true ↦ pure id | false ↦ scan_props name rest ]
    ]

  unfoldable pub get_prop_id : ℕ → ObjectType → String → Action ℕ
  get_prop_id obj_id obj_type name = do
    got ← attempt (ask (λ t. d.get_object_properties t obj_id obj_type))
    elim got [ err _ ↦ pure 0 | ok props ↦ bracket (properties obj_id) (scan_props name props) ]

  -- one round of the loop of `find_primary_plane`, on a plane that was got
  unfoldable pub is_primary : ℕ → Plane → Action Bool
  is_primary crtc_index p = elim (can_drive crtc_index p) [
    | false ↦ pure false
    | true ↦ do
      type_id ← get_prop_id p.plane_id ObjectType.plane "type"
      got ← attempt (ask (λ t. d.get_object_properties t p.plane_id ObjectType.plane))
      elim got [
        | err _ ↦ pure false
        | ok props ↦ bracket (properties p.plane_id) (pure (has_primary type_id props))
      ]
  ]

  unfoldable pub search_planes : ℕ → List ℕ → Action ℕ
  search_planes crtc_index [] = minus_one
  search_planes crtc_index (id ∷ rest) = do
    got ← attempt (ask (λ t. d.get_plane t id))
    elim got [
      | err _ ↦ search_planes crtc_index rest
      | ok p ↦ do
        primary ← bracket (plane p.plane_id) (is_primary crtc_index p)
        elim primary [ true ↦ pure p.plane_id | false ↦ search_planes crtc_index rest ]
    ]

  unfoldable pub search_at : Option ℕ → Action ℕ
  search_at none = minus_one
  search_at (some crtc_index) = do
    planes ← ask d.get_plane_resources
    bracket plane_resources (search_planes crtc_index planes)

  unfoldable pub find_primary_plane : ℕ → Action ℕ
  find_primary_plane crtc_id = do
    res ← ask d.get_resources
    bracket resources (search_at (index_of crtc_id res.crtcs))
