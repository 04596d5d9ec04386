-- ===== src/Common/World.antt =====
-- A C function as a computation: it returns a result or an error number, and changes what the
-- program holds and what it has put out. Calls out of the repository are answered by the moment.
pub mod Balance
pub mod Ensures
pub mod Blames
pub mod Starts
pub mod Puts
use Prim.Native.Nat.{ℕ, ◌+◌}
use mathlib.Core.Path.{◌≡◌, refl, ap, ◌∙◌}
use mathlib.Core.Logic.{◌⊎◌, inl, inr}
use mathlib.Core.List.{List, [], ◌∷◌, ◌++◌}
use embedded_linux_bsp.Common.{ℤ}
use embedded_linux_bsp.Common.Ledger.{Resource, Ledger, acquire, release}

-- `err e` is an error return, `e` the code's own value for it.
pub data Result (A : Type 0) : Type 0 where
  ok : A → Result A
  err : ℤ → Result A

pub Result-cases : {A : Type 0} (r : Result A) → ((e : ℤ) × (r ≡ err e)) ⊎ ((a : A) × (r ≡ ok a))
Result-cases (ok a) = inr (a, refl)
Result-cases (err e) = inl (e, refl)

-- `tick` counts the calls out of the program, so that it names the moment of each answer.
pub record World (R O : Type 0) : Type 0 where
  pub tick : ℕ
  pub ledger : Ledger R
  pub out : List O

abbrev pub Run : Type 0 → Type 0 → Type 0 → Type 0
Run R O A = World R O → Result A × World R O

module _ {R O : Type 0} where
  unfoldable pub pure : {A : Type 0} → A → Run R O A
  pure a w = (ok a, w)

  unfoldable pub fail : {A : Type 0} → ℤ → Run R O A
  fail e w = (err e, w)

  infixl 5 ◌>>=◌ ◌>>◌
  unfoldable pub ◌>>=◌ : {A B : Type 0} → Run R O A → (A → Run R O B) → Run R O B
  ◌>>=◌ m f w = let (r, w') = m w in elim r [ err e ↦ (err e, w') | ok a ↦ f a w' ]

  pub >>=-ok :
      {A B : Type 0} (m : Run R O A) (f : A → Run R O B) (w w' : World R O) (a : A)
      → m w ≡ (ok a, w')
      → (m >>= f) w ≡ f a w'
  unfolding ◌>>=◌
  >>=-ok {A} m f w w' a e =
      ap (λ (x : Result A × World R O). elim x.0 [ err e ↦ (err e, x.1) | ok a ↦ f a x.1 ]) e

  abbrev pub ◌>>◌ : {B : Type 0} → Run R O (Unit {0}) → Run R O B → Run R O B
  m >> k = m >>= λ _. k

  -- The result of a call as a value: an error does not end the caller.
  unfoldable pub attempt : {A : Type 0} → Run R O A → Run R O (Result A)
  attempt m w = let (r, w') = m w in (ok r, w')

  -- A call out of the program.
  unfoldable pub ask : {A : Type 0} → (ℕ → Result A) → Run R O A
  ask f w = (f w.tick, record w { tick = w.tick + 1 })

  unfoldable pub emit : O → Run R O (Unit {0})
  emit o w = (ok tt, record w { out = w.out ++ o ∷ [] })

  module _ ⦃i : Resource R⦄ where
    unfoldable pub hold : R → Run R O (Unit {0})
    hold r w = (ok tt, record w { ledger = acquire r w.ledger })

    unfoldable pub give_back : R → Run R O (Unit {0})
    give_back r w = (ok tt, record w { ledger = release r w.ledger })

    -- `r` is acquired, and given back at the end, whatever the body returned.
    unfoldable pub bracket : {A : Type 0} → R → Run R O A → Run R O A
    bracket r body w =
        let (ret, w') = body (record w { ledger = acquire r w.ledger }) in
        (ret, record w' { ledger = release r w'.ledger })

    -- `r`, which is held, is given back at the end, whatever the body returned.
    unfoldable pub closing : {A : Type 0} → R → Run R O A → Run R O A
    closing r body w = let (ret, w') = body w in (ret, record w' { ledger = release r w'.ledger })

    -- `r` is acquired, and given back if the body fails: an error label of the caller.
    unfoldable pub or_undo : {A : Type 0} → R → Run R O A → Run R O A
    or_undo r body w =
        let (ret, w') = body (record w { ledger = acquire r w.ledger }) in
        elim ret [ ok a ↦ (ok a, w') | err e ↦ (err e, record w' { ledger = release r w'.ledger }) ]
