-- ===== src/Common/World/Blames.antt =====
-- Why a computation fails: what is known when it returns an error (`Blames`), with the rules for a `do` block.
use embedded_linux_bsp.Common.{ℕ, ◌≡◌, inl, inr, ℤ}
use embedded_linux_bsp.Common.Ledger.{Resource, acquire}
use embedded_linux_bsp.Common.World.{
  Result, err, Result-cases, World, Run, pure, fail, ◌>>=◌, attempt, ask, bracket, closing, hold,
  give_back,
}
use embedded_linux_bsp.Common.World.Ensures.{Ensures, Returns, no_error}

pub record Blames {R O A : Type 0} (Q : Type 0) (m : Run R O A) : Type 0 where
  pub fault : (w : World R O) (e : ℤ) → (m w).0 ≡ err e → Q

module _ {R O : Type 0} {A : Type 0} (Q : Type 0) where
  pub fail-Blames : (e : ℤ) → Q → Blames Q (fail {R = R} {O = O} {A = A} e)
  fail-Blames e q = record { fault = λ w x same. q }

  pub pure-Blames : (a : A) → Blames Q (pure {R = R} {O = O} a)
  unfolding pure
  pure-Blames a = record { fault = λ w e q. absurd (cc q) }

  pub attempt-Blames : (m : Run R O A) → Blames Q (attempt m)
  unfolding attempt
  attempt-Blames m = record { fault = λ w e q. absurd (cc q) }

  pub ask-Blames :
      (f : ℕ → Result A) → ((t : ℕ) (e : ℤ) → f t ≡ err e → Q) → Blames Q (ask {R = R} {O = O} f)
  unfolding ask
  ask-Blames f h = record { fault = λ w e q. h w.tick e q }

  pub bracket-Blames :
      ⦃i : Resource R⦄ (r : R) {m : Run R O A} → Blames Q m → Blames Q (bracket r m)
  unfolding bracket
  bracket-Blames r h = record {
    fault = λ w e q. h.fault (record w { ledger = acquire r w.ledger }) e q;
  }

  pub closing-Blames :
      ⦃i : Resource R⦄ (r : R) {m : Run R O A} → Blames Q m → Blames Q (closing r m)
  unfolding closing
  closing-Blames r h = record { fault = h.fault }

module _ {R O : Type 0} ⦃i : Resource R⦄ (Q : Type 0) (r : R) where
  pub hold-Blames : Blames Q (hold {O = O} r)
  unfolding hold
  hold-Blames = record { fault = λ w e q. absurd (cc q) }

  pub give_back-Blames : Blames Q (give_back {O = O} r)
  unfolding give_back
  give_back-Blames = record { fault = λ w e q. absurd (cc q) }

pub >>=-Blames :
    {R O A B : Type 0} (P : A → Type 0) (Q : Type 0) {m : Run R O A} {f : A → Run R O B}
    → Blames Q m
    → Ensures P m
    → ((a : A) → P a → Blames Q (f a))
    → Blames Q (m >>= f)
unfolding ◌>>=◌
>>=-Blames P Q {m} hm known hf = record {
  fault = λ w e q. elim (Result-cases (m w).0) [
    | inl (x, failed) ↦ hm.fault w x failed
    | inr (a, done) ↦ (hf a (known.post w a done)).fault (m w).1 e (rw (done, ◌>>=◌) at q)
  ];
}

-- What always returns is not to blame.
pub Returns-Blames : {R O A : Type 0} (Q : Type 0) {m : Run R O A} → Returns m → Blames Q m
Returns-Blames Q h = record { fault = λ w e q. no_error _ w e h q }
