-- ===== src/Drm/Atomic/PropId.antt =====
-- Which number `get_prop_id` finds.
use Prim.Native.String.{String}
use text.Mathlib.TextEquality.{eq_iff}
use embedded_linux_bsp.Common.{
  ℕ, ◌<◌, ◌≡◌, ◌≢◌, refl, sym, ◌∙◌, ◌⊎◌, inl, inr, true, false, ltb, List, [], ◌∷◌, All, ℤ, arith,
}
use embedded_linux_bsp.Common.World.{ok, err, pure}
use embedded_linux_bsp.Common.World.Ensures.{
  Answered, attempt-Ensures, Ensures, pure-Ensures, bracket-Ensures, >>=-Ensures,
}
use embedded_linux_bsp.Drm.Env.{Device, Action, ObjectType, Property, object_resource}
use embedded_linux_bsp.Drm.Atomic.{matching_id, scan_props, get_prop_id}

module _ (d : Device) (name : String) where
  -- The device gave for this listed number a property with the name, whose own number is `id`.
  abbrev pub IsNamedAt : ℕ → ℕ × ℕ → Type 0
  IsNamedAt id (p, _) =
      (t : ℕ) × (prop : Property) × (d.get_property t p ≡ ok prop)
      × (prop.name ≡ name)
      × (prop.prop_id ≡ id)

  -- The device refused the property of this listed number, or gave one with another name or the number 0.
  abbrev pub IsOther : ℕ × ℕ → Type 0
  IsOther (p, _) =
      ((t : ℕ) × (e : ℤ) × (d.get_property t p ≡ err e))
      ⊎ ((t : ℕ) × (prop : Property) × (d.get_property t p ≡ ok prop)
          × ((prop.name ≢ name) ⊎ (prop.prop_id ≡ 0)))

  abbrev pub IsNamedIn : ℕ → List (ℕ × ℕ) → Type 0
  IsNamedIn id [] = ⊥
  IsNamedIn id (entry ∷ rest) = IsNamedAt id entry ⊎ IsNamedIn id rest

  abbrev pub IsFoundIn : List (ℕ × ℕ) → ℕ → Type 0
  IsFoundIn props id = ((0 < id) × IsNamedIn id props) ⊎ ((id ≡ 0) × All IsOther props)

  -- The number of a property with the name that the object lists; 0 if it lists none, or the device refused the list.
  abbrev pub IsPropId : ℕ → ObjectType → ℕ → Type 0
  IsPropId obj type id =
      ((t : ℕ) × (e : ℤ) × (d.get_object_properties t obj type ≡ err e) × (id ≡ 0))
      ⊎ ((t : ℕ) × (props : List (ℕ × ℕ)) × (d.get_object_properties t obj type ≡ ok props)
          × IsFoundIn props id)

  matching_id-cases :
      (prop : Property)
      → ((0 < matching_id name prop) × (prop.name ≡ name) × (prop.prop_id ≡ matching_id name prop))
        ⊎ ((matching_id name prop ≡ 0) × ((prop.name ≢ name) ⊎ (prop.prop_id ≡ 0)))
  unfolding matching_id
  matching_id-cases prop = ground (arith, eq_iff prop.name name)

  scan_props-IsFoundIn : (ps : List (ℕ × ℕ)) → Ensures (IsFoundIn ps) (scan_props d name ps)
  unfolding scan_props
  scan_props-IsFoundIn [] = pure-Ensures _ 0 (inr (refl, tt))
  scan_props-IsFoundIn (p ∷ rest) =
      let ih = scan_props-IsFoundIn rest in
      >>=-Ensures (Answered (λ t. d.get_property t p.0)) _ (attempt-Ensures _) (elim [
        | err e ↦ λ (t, q). skip ih (inl (t, e, q))
        | ok prop ↦ λ (t, got).
            >>=-Ensures (λ id. id ≡ matching_id name prop) _
              (bracket-Ensures _ _ (pure-Ensures _ _ refl))
              λ id q. choose ih t prop got id q (matching_id-cases prop)
      ])
    where
      skip :
          Ensures (IsFoundIn rest) (scan_props d name rest)
          → IsOther p
          → Ensures (IsFoundIn (p ∷ rest)) (scan_props d name rest)
      skip ih other = record {
        post = λ w id e. elim (ih.post w id e) [
          | inl (some_id, named) ↦ inl (some_id, inr named)
          | inr (zero_id, others) ↦ inr (zero_id, (other, others))
        ];
      }

      choose :
          Ensures (IsFoundIn rest) (scan_props d name rest)
          → (t : ℕ) (prop : Property) → d.get_property t p.0 ≡ ok prop
          → (id : ℕ) → id ≡ matching_id name prop
          → ((0 < matching_id name prop)
              × (prop.name ≡ name)
              × (prop.prop_id ≡ matching_id name prop))
            ⊎ ((matching_id name prop ≡ 0) × ((prop.name ≢ name) ⊎ (prop.prop_id ≡ 0)))
          → Ensures (IsFoundIn (p ∷ rest)) (
              let act : Action ℕ = elim (ltb 0 id) [
                | true ↦ pure id
                | false ↦ scan_props d name rest
              ] in
              act)
      choose ih t prop got id q (inl (some_id, named, same)) =
          let b : ltb 0 id ≡ true = ground (arith, q, some_id) in
          rw b (
            pure-Ensures _ id
              (inl (omega (arith, q, some_id), inl (t, prop, got, named, same ∙ sym q))))
      choose ih t prop got id q (inr (zero_id, other)) =
          let b : ltb 0 id ≡ false = ground (arith, q, zero_id) in
          rw b (skip ih (inr (t, prop, got, other)))

  -- `get_prop_id` returns the number of a property with the name that the object lists, as the device answers, or 0 if
  -- it finds none.
  pub get_prop_id-IsPropId :
      (obj : ℕ) (type : ObjectType) → Ensures (IsPropId obj type) (get_prop_id d obj type name)
  unfolding get_prop_id
  get_prop_id-IsPropId obj type =
      >>=-Ensures (Answered (λ t. d.get_object_properties t obj type)) _ (attempt-Ensures _) (elim [
        | err e ↦ λ (t, q). pure-Ensures _ 0 (inl (t, e, q, refl))
        | ok props ↦ λ (t, q). bracket-Ensures _ _ (record {
          post = λ w id e. inr (t, props, q, (scan_props-IsFoundIn props).post w id e);
        })
      ])
