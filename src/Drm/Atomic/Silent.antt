-- ===== src/Drm/Atomic/Silent.antt =====
-- The look-ups of atomic_modeset_minimal.c and its building of a request, which only ask the device.
use Prim.Native.String.{String}
use embedded_linux_bsp.Common.{
  ℕ, inl, inr, true, false, Bool, Bool-cases, ltb, Option, none, some, List, [], ◌∷◌,
}
use embedded_linux_bsp.Common.World.{ok, err, pure}
use embedded_linux_bsp.Common.World.Puts.{
  IsSilent, >>=-IsSilent, ask-IsSilent, attempt-IsSilent, bracket-IsSilent, pure-IsSilent,
  fail-IsSilent, silence,
}
use embedded_linux_bsp.Drm.Env.{Device, Action, ObjectType, Plane, object_resource}
use embedded_linux_bsp.Drm.Dumb.{DumbBuffer}
use embedded_linux_bsp.Drm.Connector.{Target}
use embedded_linux_bsp.Drm.Atomic.{
  Item, ObjectProps, scan_props, get_prop_id, is_primary, can_drive, search_planes, search_at,
  find_primary_plane, load_props, add_all, build_request,
}

module _ (d : Device) where
  scan_props-IsSilent : (name : String) (ps : List (ℕ × ℕ)) → IsSilent (scan_props d name ps)
  unfolding scan_props
  scan_props-IsSilent name [] = pure-IsSilent 0
  scan_props-IsSilent name (p ∷ rest) =
      let ih = scan_props-IsSilent name rest in
      >>=-IsSilent (attempt-IsSilent (ask-IsSilent _)) (elim [
        | err _ ↦ ih
        | ok prop ↦
            >>=-IsSilent (bracket-IsSilent _ (pure-IsSilent _)) λ id. choose (ltb 0 id) id ih
      ])
    where
      choose :
          (b : Bool) (id : ℕ) {k : Action ℕ}
          → IsSilent k
          → IsSilent (elim b [ true ↦ pure id | false ↦ k ])
      choose true id h = pure-IsSilent id
      choose false id h = h

  get_prop_id-IsSilent :
      (obj : ℕ) (t : ObjectType) (name : String) → IsSilent (get_prop_id d obj t name)
  unfolding get_prop_id
  get_prop_id-IsSilent obj t name = >>=-IsSilent (attempt-IsSilent (ask-IsSilent _)) (elim [
    | err _ ↦ pure-IsSilent 0
    | ok props ↦ bracket-IsSilent _ (scan_props-IsSilent name props)
  ])

  is_primary-IsSilent : (i : ℕ) (p : Plane) → IsSilent (is_primary d i p)
  unfolding is_primary
  is_primary-IsSilent i p = elim (Bool-cases (can_drive i p)) [
    | inr q ↦ rw (q, is_primary) (pure-IsSilent false)
    | inl q ↦
        rw (q, is_primary)
          (>>=-IsSilent (get_prop_id-IsSilent _ _ _) λ type_id.
            >>=-IsSilent (attempt-IsSilent (ask-IsSilent _)) (elim [
              | err _ ↦ pure-IsSilent false
              | ok props ↦ bracket-IsSilent _ (pure-IsSilent _)
            ]))
  ]

  search_planes-IsSilent : (i : ℕ) (ids : List ℕ) → IsSilent (search_planes d i ids)
  unfolding search_planes
  search_planes-IsSilent i [] = fail-IsSilent _
  search_planes-IsSilent i (id ∷ rest) =
      let ih = search_planes-IsSilent i rest in
      >>=-IsSilent (attempt-IsSilent (ask-IsSilent _)) (elim [
        | err _ ↦ ih
        | ok p ↦
            >>=-IsSilent (bracket-IsSilent _ (is_primary-IsSilent i p))
              (elim [ true ↦ pure-IsSilent _ | false ↦ ih ])
      ])

  search_at-IsSilent : (o : Option ℕ) → IsSilent (search_at d o)
  unfolding search_at
  search_at-IsSilent none = fail-IsSilent _
  search_at-IsSilent (some i) =
      >>=-IsSilent (ask-IsSilent _) λ planes. bracket-IsSilent _ (search_planes-IsSilent i planes)

  pub find_primary_plane-IsSilent : (crtc_id : ℕ) → IsSilent (find_primary_plane d crtc_id)
  unfolding find_primary_plane
  find_primary_plane-IsSilent crtc_id =
      >>=-IsSilent (ask-IsSilent _) λ res. bracket-IsSilent _ (search_at-IsSilent _)

  pub load_props-IsSilent : (a b c : ℕ) → IsSilent (load_props d a b c)
  unfolding load_props
  load_props-IsSilent a b c = search (silence, get_prop_id-IsSilent) depth 32

  add_all-IsSilent : (items req : List Item) → IsSilent (add_all d items req)
  unfolding add_all
  add_all-IsSilent [] req = pure-IsSilent req
  add_all-IsSilent (item ∷ rest) req =
      >>=-IsSilent (attempt-IsSilent (ask-IsSilent _)) λ added. add_all-IsSilent rest _

  pub build_request-IsSilent :
      (t : Target) (p b : ℕ) (props : ObjectProps) (buf : DumbBuffer)
      → IsSilent (build_request d t p b props buf)
  unfolding build_request
  build_request-IsSilent t p b props buf =
      >>=-IsSilent (get_prop_id-IsSilent _ _ _) λ q. add_all-IsSilent _ _
