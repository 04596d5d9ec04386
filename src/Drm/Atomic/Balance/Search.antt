-- ===== src/Drm/Atomic/Balance/Search.antt =====
-- What the look-ups of atomic_modeset_minimal.c hold at their end.
use Prim.Native.String.{String}
use embedded_linux_bsp.Common.{
  ℕ, inl, inr, true, false, Bool, Bool-cases, ltb, Option, none, some, List, [], ◌∷◌,
}
use embedded_linux_bsp.Common.World.{ok, err, pure}
use embedded_linux_bsp.Common.World.Balance.{
  IsBalanced, >>=-IsBalanced, ask-IsBalanced, attempt-IsBalanced, bracket-IsBalanced,
  pure-IsBalanced, fail-IsBalanced,
}
use embedded_linux_bsp.Drm.Env.{Device, Action, ObjectType, Plane, object_resource}
use embedded_linux_bsp.Drm.Atomic.{
  scan_props, get_prop_id, is_primary, can_drive, search_planes, search_at, find_primary_plane,
}

module _ (d : Device) where
  scan_props-IsBalanced : (name : String) (ps : List (ℕ × ℕ)) → IsBalanced (scan_props d name ps)
  unfolding scan_props
  scan_props-IsBalanced name [] = pure-IsBalanced 0
  scan_props-IsBalanced name (p ∷ rest) =
      let ih = scan_props-IsBalanced name rest in
      >>=-IsBalanced (attempt-IsBalanced (ask-IsBalanced _)) (elim [
        | err _ ↦ ih
        | ok prop ↦
            >>=-IsBalanced (bracket-IsBalanced _ (pure-IsBalanced _)) λ id. choose (ltb 0 id) id ih
      ])
    where
      choose :
          (b : Bool) (id : ℕ) {k : Action ℕ}
          → IsBalanced k
          → IsBalanced (elim b [ true ↦ pure id | false ↦ k ])
      choose true id h = pure-IsBalanced id
      choose false id h = h

  pub get_prop_id-IsBalanced :
      (obj : ℕ) (t : ObjectType) (name : String) → IsBalanced (get_prop_id d obj t name)
  unfolding get_prop_id
  get_prop_id-IsBalanced obj t name = >>=-IsBalanced (attempt-IsBalanced (ask-IsBalanced _)) (elim [
    | err _ ↦ pure-IsBalanced 0
    | ok props ↦ bracket-IsBalanced _ (scan_props-IsBalanced name props)
  ])

  is_primary-IsBalanced : (i : ℕ) (p : Plane) → IsBalanced (is_primary d i p)
  unfolding is_primary
  is_primary-IsBalanced i p = elim (Bool-cases (can_drive i p)) [
    | inr q ↦ rw (q, is_primary) (pure-IsBalanced false)
    | inl q ↦
        rw (q, is_primary)
          (>>=-IsBalanced (get_prop_id-IsBalanced _ _ _) λ type_id.
            >>=-IsBalanced (attempt-IsBalanced (ask-IsBalanced _)) (elim [
              | err _ ↦ pure-IsBalanced false
              | ok props ↦ bracket-IsBalanced _ (pure-IsBalanced _)
            ]))
  ]

  search_planes-IsBalanced : (i : ℕ) (ids : List ℕ) → IsBalanced (search_planes d i ids)
  unfolding search_planes
  search_planes-IsBalanced i [] = fail-IsBalanced _
  search_planes-IsBalanced i (id ∷ rest) =
      let ih = search_planes-IsBalanced i rest in
      >>=-IsBalanced (attempt-IsBalanced (ask-IsBalanced _)) (elim [
        | err _ ↦ ih
        | ok p ↦
            >>=-IsBalanced (bracket-IsBalanced _ (is_primary-IsBalanced i p))
              (elim [ true ↦ pure-IsBalanced _ | false ↦ ih ])
      ])

  search_at-IsBalanced : (o : Option ℕ) → IsBalanced (search_at d o)
  unfolding search_at
  search_at-IsBalanced none = fail-IsBalanced _
  search_at-IsBalanced (some i) =
      >>=-IsBalanced (ask-IsBalanced _)
        λ planes. bracket-IsBalanced _ (search_planes-IsBalanced i planes)

  -- Whatever the device answers, `find_primary_plane` ends holding what it held before: each plane, list
  -- of properties and list of resources that it got is freed, on the error returns too.
  pub find_primary_plane-IsBalanced : (crtc_id : ℕ) → IsBalanced (find_primary_plane d crtc_id)
  unfolding find_primary_plane
  find_primary_plane-IsBalanced crtc_id =
      >>=-IsBalanced (ask-IsBalanced _) λ res. bracket-IsBalanced _ (search_at-IsBalanced _)
