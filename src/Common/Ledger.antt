-- ===== src/Common/Ledger.antt =====
-- What a program holds of the resources that it acquires and gives back: open files, kernel
-- objects, mappings. Giving back what is not held (a double free) is counted as a fault.
use Prim.Native.Nat.{ℕ, zero, suc, ◌+◌}
use mathlib.Core.Path.{◌≡◌, refl, ap, ◌∙◌}
use mathlib.Core.Logic.{◌⊎◌, inl, inr}
use mathlib.Core.Bool.{Bool, true, false}
use mathlib.Core.Option.{Option, none, some}
use mathlib.Core.List.{List, [], ◌∷◌}

Option-cases : {A : Type 0} (o : Option A) → (o ≡ none) ⊎ ((a : A) × (o ≡ some a))
Option-cases none = inl refl
Option-cases (some a) = inr (a, refl)

-- How the resources of a program are told apart.
pub record Resource (R : Type 0) : Type 0 where
  pub same : R → R → Bool
  pub same_refl : (r : R) → same r r ≡ true

pub record Ledger (R : Type 0) : Type 0 where
  pub live : List R
  pub faults : ℕ

module _ {R : Type 0} ⦃i : Resource R⦄ where
  -- Take one `r` off the list, if it is there.
  abbrev pub remove : R → List R → Option (List R)
  remove r [] = none
  remove r (x ∷ xs) = elim (i.same r x) [
    | true ↦ some xs
    | false ↦ elim (remove r xs) [ none ↦ none | some ys ↦ some (x ∷ ys) ]
  ]

  pub acquire : R → Ledger R → Ledger R
  acquire r l = record l { live = r ∷ l.live }

  pub release : R → Ledger R → Ledger R
  release r l = elim (remove r l.live) [
    | none ↦ record l { faults = l.faults + 1 }
    | some rest ↦ record l { live = rest }
  ]

  pub release-acquire : (r : R) (l : Ledger R) → release r (acquire r l) ≡ l
  unfolding acquire release
  release-acquire r l = rw (i.same_refl r) refl

  -- Giving one back does not touch another.
  pub release-acquire_other :
      (r x : R) (l : Ledger R)
      → i.same r x ≡ false
      → release r (acquire x l) ≡ acquire x (release r l)
  unfolding acquire release
  release-acquire_other r x l e = elim (Option-cases (remove r l.live)) [
    | inl gone ↦ rw (e, gone, release) refl
    | inr (rest, there) ↦ rw (e, there, release) refl
  ]

  -- `n` more of one
  unfoldable pub again : ℕ → R → Ledger R → Ledger R
  again zero r l = l
  again (suc n) r l = acquire r (again n r l)

  pub release-again :
      (r x : R) (n : ℕ) (l : Ledger R)
      → i.same r x ≡ false
      → release r (again n x l) ≡ again n x (release r l)
  unfolding again
  release-again r x zero l e = refl
  release-again r x (suc n) l e =
      release-acquire_other r x (again n x l) e ∙ ap (acquire x) (release-again r x n l e)

  again-acquire : (r : R) (n : ℕ) (l : Ledger R) → again n r (acquire r l) ≡ acquire r (again n r l)
  unfolding again
  again-acquire r zero l = refl
  again-acquire r (suc n) l = ap (acquire r) (again-acquire r n l)

  pub release-again_same :
      (r : R) (n : ℕ) (l : Ledger R) → release r (again n r (acquire r l)) ≡ again n r l
  unfolding again
  release-again_same r zero l = release-acquire r l
  release-again_same r (suc n) l = release-acquire r (again n r (acquire r l)) ∙ again-acquire r n l
