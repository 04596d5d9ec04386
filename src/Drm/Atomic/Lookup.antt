-- ===== src/Drm/Atomic/Lookup.antt =====
-- What the look-ups of atomic_modeset_minimal.c find.
use Prim.Native.String.{String}
use text.Mathlib.TextEquality.{eq_iff}
use embedded_linux_bsp.Common.{
  ℕ, zero, suc, ◌<◌, ◌/◌, ◌%◌, ◌^◌, ◌==◌, ◌&&◌, ◌++◌, ap, ◌≡◌, refl, sym, ◌∙◌, inl, inr, true,
  false, Bool, Bool-cases, ltb, Option, none, some, List, [], ◌∷◌, get_elem?, arith,
}
use embedded_linux_bsp.Common.World.{ok, err, pure}
use embedded_linux_bsp.Common.World.Ensures.{
  Answered, attempt-Ensures, Ensures, pure-Ensures, fail-Ensures, ask-Ensures, bracket-Ensures,
  >>=-Ensures,
}
use embedded_linux_bsp.Drm.Env.{
  Device, Action, ObjectType, Plane, Property, Resources, object_resource, resources,
  plane_resources,
}
use embedded_linux_bsp.Drm.Atomic.PropId.{IsPropId, get_prop_id-IsPropId}
use embedded_linux_bsp.Drm.Atomic.{
  matching_id, plane_type_primary, index_of, can_drive, has_primary, scan_props, get_prop_id,
  is_primary, search_planes, search_at, find_primary_plane,
}

abbrev Any : {A : Type 0} → A → Type 0
Any _ = Unit

-- A nonzero number is that of a property with the name, as the device answered at some moment.
abbrev pub IsNamed : Device → String → ℕ → Type 0
IsNamed d name id =
    0 < id
    → (t : ℕ) × (p : ℕ) × (prop : Property) × (d.get_property t p ≡ ok prop)
      × (prop.name ≡ name)
      × (prop.prop_id ≡ id)

matching_id_lem :
    (name : String) (prop : Property)
    → 0 < matching_id name prop
    → (prop.name ≡ name) × (prop.prop_id ≡ matching_id name prop)
unfolding matching_id
matching_id_lem name prop h = ground (arith, eq_iff prop.name name)

can_drive-bit :
    (index : ℕ) (p : Plane) → can_drive index p ≡ true → p.possible_crtcs / 2 ^ index % 2 ≡ 1
unfolding can_drive
can_drive-bit index p e = ground (arith, e)

has_primary-split :
    (type_id : ℕ) (props : List (ℕ × ℕ))
    → has_primary type_id props ≡ true
    → (before after : List (ℕ × ℕ)) × (props ≡ before ++ (type_id, 1) ∷ after)
unfolding has_primary
has_primary-split type_id [] e = absurd (ground (arith, e))
has_primary-split type_id ((id, value) ∷ rest) e =
    elim (Bool-cases (id == type_id && value == plane_type_primary)) [
      | inl here ↦
          let i : id ≡ type_id = ground (arith, here) in
          let v : value ≡ 1 = ground (arith, here) in ([], rest, cc (i, v))
      | inr other ↦
          let (before, after, q) = has_primary-split type_id rest (rw other at e) in
          ((id, value) ∷ before, after, ap (λ l. (id, value) ∷ l) q)
    ]

module _ (d : Device) where
  scan_props-Ensures :
      (name : String) (ps : List (ℕ × ℕ)) → Ensures (IsNamed d name) (scan_props d name ps)
  unfolding scan_props
  scan_props-Ensures name [] = pure-Ensures _ 0 (λ h. absurd (omega arith))
  scan_props-Ensures name (p ∷ rest) =
      let ih = scan_props-Ensures name rest in
      >>=-Ensures (Answered (λ t. d.get_property t p.0)) _ (attempt-Ensures _) (elim [
        | err _ ↦ λ _. ih
        | ok prop ↦ λ (t, got).
            >>=-Ensures (λ id. id ≡ matching_id name prop) _
              (bracket-Ensures _ _ (pure-Ensures _ _ refl))
              λ id q.
                choose (ltb 0 id) id
                  (λ h.
                    let (named, same) = matching_id_lem name prop (rw (← q) h) in
                    (t, p.0, prop, got, named, same ∙ sym q))
                  ih
      ])
    where
      choose :
          (b : Bool) (id : ℕ) {k : Action ℕ}
          → IsNamed d name id
          → Ensures (IsNamed d name) k
          → Ensures (IsNamed d name) (elim b [ true ↦ pure id | false ↦ k ])
      choose true id h hk = pure-Ensures _ id h
      choose false id h hk = hk

  -- If `get_prop_id` returns a nonzero number, it is the number of a property with that name.
  pub get_prop_id-Ensures :
      (obj : ℕ) (t : ObjectType) (name : String)
      → Ensures (IsNamed d name) (get_prop_id d obj t name)
  unfolding get_prop_id
  get_prop_id-Ensures obj t name =
      >>=-Ensures Any _ (record { post = λ w r e. tt })
        (elim [
          | err _ ↦ λ _. pure-Ensures _ 0 (λ h. absurd (omega arith))
          | ok props ↦ λ _. bracket-Ensures _ _ (scan_props-Ensures name props)
        ])

  -- The plane's mask has the bit of this index, and its properties list one with the number of "type" and the value
  -- 1, that of a primary plane.
  pub record IsPrimary (index : ℕ) (p : Plane) : Type 0 where
    pub drives : p.possible_crtcs / 2 ^ index % 2 ≡ 1
    pub type_id : ℕ
    pub type_named : IsPropId d "type" p.plane_id ObjectType.plane type_id
    pub props : List (ℕ × ℕ)
    pub moment : ℕ
    pub listed : d.get_object_properties moment p.plane_id ObjectType.plane ≡ ok props
    pub primary : (before after : List (ℕ × ℕ)) × (props ≡ before ++ (type_id, 1) ∷ after)

  is_primary-Ensures :
      (i : ℕ) (p : Plane) → Ensures (λ b. b ≡ true → IsPrimary i p) (is_primary d i p)
  unfolding is_primary
  is_primary-Ensures i p = elim (Bool-cases (can_drive i p)) [
    | inr q ↦ rw (q, is_primary) (pure-Ensures _ false (λ e. cc))
    | inl q ↦
        rw (q, is_primary)
          (>>=-Ensures (IsPropId d "type" p.plane_id ObjectType.plane) _
            (get_prop_id-IsPropId d "type" _ _)
            λ type_id named.
              >>=-Ensures (Answered (λ t. d.get_object_properties t p.plane_id ObjectType.plane)) _
                (attempt-Ensures _)
                (elim [
                  | err _ ↦ λ _. pure-Ensures _ false (λ e. cc)
                  | ok props ↦ λ (t, got). bracket-Ensures _ _ (
                      pure-Ensures _ _ (λ e. record {
                        drives = can_drive-bit i p q;
                        type_id = type_id;
                        type_named = named;
                        props = props;
                        moment = t;
                        listed = got;
                        primary = has_primary-split type_id props e;
                      }))
                ]))
  ]

  -- The number is that of a plane which the device has, and which is primary for the index.
  abbrev pub IsPrimaryPlane : ℕ → ℕ → Type 0
  IsPrimaryPlane index plane_id =
      (t : ℕ) × (id : ℕ) × (p : Plane) × (d.get_plane t id ≡ ok p)
      × (p.plane_id ≡ plane_id)
      × IsPrimary index p

  search_planes-Ensures :
      (i : ℕ) (ids : List ℕ) → Ensures (IsPrimaryPlane i) (search_planes d i ids)
  unfolding search_planes
  search_planes-Ensures i [] = fail-Ensures _ _
  search_planes-Ensures i (id ∷ rest) =
      let ih = search_planes-Ensures i rest in
      >>=-Ensures (Answered (λ t. d.get_plane t id)) _ (attempt-Ensures _) (elim [
        | err _ ↦ λ _. ih
        | ok p ↦ λ (t, got).
            >>=-Ensures (λ b. b ≡ true → IsPrimary i p) _
              (bracket-Ensures _ _ (is_primary-Ensures i p))
              (elim [
                | true ↦ λ h. pure-Ensures _ _ (t, id, p, got, refl, h refl)
                | false ↦ λ _. ih
              ])
      ])

pub index_of-get_elem? :
    (id : ℕ) (xs : List ℕ) (i : ℕ) → index_of id xs ≡ some i → get_elem? xs i ≡ some id
unfolding index_of
index_of-get_elem? id [] i e = cc
index_of-get_elem? id (x ∷ xs) zero e = ground arith
index_of-get_elem? id (x ∷ xs) (suc i) e = ground (arith, index_of-get_elem? id xs i)

module _ (d : Device) where
  -- The plane is primary for the place of the CRTC in the device's list.
  abbrev pub IsPlaneOf : ℕ → ℕ → Type 0
  IsPlaneOf crtc_id plane_id =
      (t : ℕ) × (res : Resources) × (index : ℕ) × (d.get_resources t ≡ ok res)
      × (get_elem? res.crtcs index ≡ some crtc_id)
      × IsPrimaryPlane d index plane_id

  -- If `find_primary_plane` returns a number, then the device had, at some moment, a plane of that number whose
  -- mask has the bit of a place where the CRTC stands in the device's list, and whose listed properties include, with
  -- the value 1 of a primary plane, one whose number is that of a listed property which the device gave the name "type",
  -- or 0 if there is none.
  pub find_primary_plane-Ensures :
      (crtc_id : ℕ) → Ensures (IsPlaneOf crtc_id) (find_primary_plane d crtc_id)
  unfolding find_primary_plane search_at
  find_primary_plane-Ensures crtc_id =
      >>=-Ensures (λ res. (t : ℕ) × (d.get_resources t ≡ ok res)) _
        (ask-Ensures _ _ (λ t res got. (t, got)))
        λ res (t, got).
          bracket-Ensures _ resources (at_index t res got (index_of crtc_id res.crtcs) refl)
    where
      at_index :
          (t : ℕ) (res : Resources)
          → d.get_resources t ≡ ok res
          → (o : Option ℕ) → index_of crtc_id res.crtcs ≡ o
          → Ensures (IsPlaneOf crtc_id) (search_at d o)
      at_index t res got none e = fail-Ensures _ _
      at_index t res got (some i) e =
          >>=-Ensures Any _ (record { post = λ w r q. tt })
            λ planes _. bracket-Ensures _ plane_resources (record {
              post = λ w n q. (
                t,
                res,
                i,
                got,
                index_of-get_elem? crtc_id res.crtcs i e,
                (search_planes-Ensures d i planes).post w n q,
              );
            })
