-- ===== src/Drm/Atomic/Missing.antt =====
-- Why `find_primary_plane` fails.
use embedded_linux_bsp.Common.{
  ℕ, ◌≡◌, ◌≢◌, ◌≤◌, ◌/◌, ◌%◌, ◌^◌, ◌==◌, ◌&&◌, ltb, refl, inl, inr, ◌⊎◌, Bool-cases, Option-cases,
  true, false, none, some, Option, List, [], ◌∷◌, All, ℤ, arith, get_elem?,
}
use embedded_linux_bsp.Common.World.{ok, err}
use embedded_linux_bsp.Common.World.Ensures.{
  Ensures, Answered, ask-Ensures, attempt-Ensures, pure-Ensures, bracket-Ensures, >>=-Ensures,
  Returns, >>=-Returns, attempt-Returns, pure-Returns, bracket-Succeeds,
}
use embedded_linux_bsp.Common.World.Blames.{
  Blames, fail-Blames, pure-Blames, attempt-Blames, ask-Blames, bracket-Blames, >>=-Blames,
  Returns-Blames,
}
use embedded_linux_bsp.Drm.Env.{
  Device, ObjectType, Plane, Resources, resources, plane_resources, object_resource,
}
use embedded_linux_bsp.Drm.Atomic.{
  plane_type_primary, index_of, can_drive, has_primary, is_primary, search_planes, search_at,
  find_primary_plane,
}
use embedded_linux_bsp.Drm.Atomic.Request.{get_prop_id-Succeeds}
use embedded_linux_bsp.Drm.Atomic.PropId.{IsPropId, get_prop_id-IsPropId}
use embedded_linux_bsp.Drm.Atomic.Lookup.{index_of-get_elem?}

can_drive-no_bit :
    (index : ℕ) (p : Plane)
    → can_drive index p ≡ false
    → (32 ≤ index) ⊎ (p.possible_crtcs / 2 ^ index % 2 ≢ 1)
unfolding can_drive
can_drive-no_bit index p e = elim (Bool-cases (ltb index 32)) [
  | inl low ↦ inr (λ bit. absurd (ground (arith, e, low, bit)))
  | inr high ↦ inl (ground (arith, high))
]

has_primary-none :
    (type_id : ℕ) (props : List (ℕ × ℕ))
    → has_primary type_id props ≡ false
    → All (λ entry. entry ≢ (type_id, 1)) props
unfolding has_primary
has_primary-none type_id [] e = tt
has_primary-none type_id ((id, value) ∷ rest) e =
    elim (Bool-cases (id == type_id && value == plane_type_primary)) [
      | inl here ↦ absurd (cc (rw here at e))
      | inr other ↦ (
        (λ same.
            let i : id ≡ type_id = cc same in
            let v : value ≡ 1 = cc same in absurd (ground (arith, other, i, v))),
        has_primary-none type_id rest (rw other at e),
      )
    ]

index_of-none : (id : ℕ) (xs : List ℕ) → index_of id xs ≡ none → All (λ x. x ≢ id) xs
unfolding index_of
index_of-none id [] e = tt
index_of-none id (x ∷ xs) e = elim (Bool-cases (x == id)) [
  | inl here ↦ absurd (cc (rw here at e))
  | inr other ↦ (
    (λ same. absurd (ground (arith, other, same))),
    index_of-none id xs (elim (Option-cases (index_of id xs)) [
      | inl q ↦ q
      | inr (i, q) ↦ absurd (cc (rw (other, q) at e))
    ]),
  )
]

module _ (d : Device) where
  -- The CRTC of this index cannot drive the plane, or the device refused its properties, or they list none with the
  -- number of "type" and the value 1, that of a primary plane.
  pub data IsNotPrimary (index : ℕ) (p : Plane) : Type 0 where
    far : 32 ≤ index → IsNotPrimary index p
    no_bit : p.possible_crtcs / 2 ^ index % 2 ≢ 1 → IsNotPrimary index p
    no_properties :
        (t : ℕ) (e : ℤ)
        → d.get_object_properties t p.plane_id ObjectType.plane ≡ err e
        → IsNotPrimary index p
    other_type :
        (type_id : ℕ)
        → IsPropId d "type" p.plane_id ObjectType.plane type_id
        → (t : ℕ) (props : List (ℕ × ℕ))
        → d.get_object_properties t p.plane_id ObjectType.plane ≡ ok props
        → All (λ entry. entry ≢ (type_id, 1)) props
        → IsNotPrimary index p

  is_primary-IsNotPrimary :
      (i : ℕ) (p : Plane) → Ensures (λ b. b ≡ false → IsNotPrimary i p) (is_primary d i p)
  unfolding is_primary
  is_primary-IsNotPrimary i p = elim (Bool-cases (can_drive i p)) [
    | inr q ↦
        rw (q, is_primary)
          (pure-Ensures _ false
            (λ e. elim (can_drive-no_bit i p q) [ inl high ↦ far high | inr bit ↦ no_bit bit ]))
    | inl q ↦
        rw (q, is_primary)
          (>>=-Ensures (IsPropId d "type" p.plane_id ObjectType.plane) _
            (get_prop_id-IsPropId d "type" _ _)
            λ type_id named.
              >>=-Ensures (Answered (λ t. d.get_object_properties t p.plane_id ObjectType.plane)) _
                (attempt-Ensures _)
                (elim [
                  | err e ↦ λ (t, refused). pure-Ensures _ false (λ _. no_properties t e refused)
                  | ok props ↦ λ (t, got). bracket-Ensures _ _ (
                      pure-Ensures _ _ (λ e.
                        other_type type_id named t props got (has_primary-none type_id props e)))
                ]))
  ]

  is_primary-Returns : (i : ℕ) (p : Plane) → Returns (is_primary d i p)
  unfolding is_primary
  is_primary-Returns i p = elim (Bool-cases (can_drive i p)) [
    | inr q ↦ rw (q, is_primary) (pure-Returns false)
    | inl q ↦
        rw (q, is_primary)
          (>>=-Returns (get_prop_id-Succeeds d _ _ _) λ type_id.
            >>=-Returns (attempt-Returns _) (elim [
              | err e ↦ pure-Returns false
              | ok props ↦ bracket-Succeeds _ _ (pure-Returns _)
            ]))
  ]

  -- The device refused this plane, or gave one that is not primary for the index.
  abbrev pub IsPassedOver : ℕ → ℕ → Type 0
  IsPassedOver index id =
      ((t : ℕ) × (e : ℤ) × (d.get_plane t id ≡ err e))
      ⊎ ((t : ℕ) × (p : Plane) × (d.get_plane t id ≡ ok p) × IsNotPrimary index p)

  search-Blames :
      (Q : Type 0) (index : ℕ) (ids : List ℕ)
      → (All (IsPassedOver index) ids → Q)
      → Blames Q (search_planes d index ids)
  unfolding search_planes
  search-Blames Q index [] done = fail-Blames Q _ (done tt)
  search-Blames Q index (id ∷ rest) done =
      >>=-Blames (Answered (λ t. d.get_plane t id)) Q (attempt-Blames Q _) (attempt-Ensures _)
        (elim [
          | err e ↦ λ (t, q). search-Blames Q index rest λ all. done (inl (t, e, q), all)
          | ok p ↦ λ (t, q).
              >>=-Blames (λ b. b ≡ false → IsNotPrimary index p) Q
                (bracket-Blames _ _ (Returns-Blames Q (is_primary-Returns index p)))
                (bracket-Ensures _ _ (is_primary-IsNotPrimary index p))
                (elim [
                  | true ↦ λ _. pure-Blames Q _
                  | false ↦ λ h. search-Blames Q index rest λ all. done (inr (t, p, q, h refl), all)
                ])
        ])

  -- The device refused its resources or its planes, or its resources do not name the CRTC, or each of its planes was
  -- passed over for a place of the CRTC.
  pub data IsMissing (crtc_id : ℕ) : Type 0 where
    no_resources : (t : ℕ) (e : ℤ) → d.get_resources t ≡ err e → IsMissing crtc_id
    not_listed :
        (t : ℕ) (res : Resources)
        → d.get_resources t ≡ ok res
        → All (λ x. x ≢ crtc_id) res.crtcs
        → IsMissing crtc_id
    no_planes : (t : ℕ) (e : ℤ) → d.get_plane_resources t ≡ err e → IsMissing crtc_id
    no_primary :
        (t : ℕ) (res : Resources)
        → d.get_resources t ≡ ok res
        → (index : ℕ) → get_elem? res.crtcs index ≡ some crtc_id
        → (t' : ℕ) (planes : List ℕ) → d.get_plane_resources t' ≡ ok planes
        → All (IsPassedOver index) planes
        → IsMissing crtc_id

  -- If `find_primary_plane` fails, one of these is the reason.
  pub find_primary_plane-Blames :
      (crtc_id : ℕ) → Blames (IsMissing crtc_id) (find_primary_plane d crtc_id)
  unfolding find_primary_plane search_at
  find_primary_plane-Blames crtc_id =
      >>=-Blames (λ res. (t : ℕ) × (d.get_resources t ≡ ok res)) _
        (ask-Blames _ _ λ t e q. no_resources t e q) (ask-Ensures _ _ λ t res q. (t, q))
        λ res (t, got).
          bracket-Blames _ resources (at_index t res got (index_of crtc_id res.crtcs) refl)
    where
      at_index :
          (t : ℕ) (res : Resources)
          → d.get_resources t ≡ ok res
          → (o : Option ℕ) → index_of crtc_id res.crtcs ≡ o
          → Blames (IsMissing crtc_id) (search_at d o)
      at_index t res got none e =
          fail-Blames _ _ (not_listed t res got (index_of-none crtc_id res.crtcs e))
      at_index t res got (some i) e =
          >>=-Blames (λ planes. (t : ℕ) × (d.get_plane_resources t ≡ ok planes)) _
            (ask-Blames _ _ λ t e q. no_planes t e q) (ask-Ensures _ _ λ t a q. (t, q))
            λ planes (t', there). bracket-Blames _ plane_resources (
              search-Blames _ i planes
                (no_primary t res got i (index_of-get_elem? crtc_id res.crtcs i e) t' planes there))
