-- ===== src/Common/World/Balance.antt =====
-- Computations that end with what they held at their start, and the rules that show it of a `do`
-- block.
use embedded_linux_bsp.Common.{ℕ, ◌≡◌, refl, ◌∙◌, ap, inl, inr, Bool, true, false, ℤ, if◌then◌else◌}
use embedded_linux_bsp.Common.Ledger.{Resource, acquire, release, release-acquire}
use embedded_linux_bsp.Common.World.{
  Result, ok, err, Result-cases, World, Run, pure, fail, ◌>>=◌, ◌>>◌, attempt, ask, emit, bracket,
  hold, closing,
}

pub record IsBalanced {R O A : Type 0} (m : Run R O A) : Type 0 where
  pub held : (w : World R O) → (m w).1.ledger ≡ w.ledger

module _ {R O A : Type 0} where
  pub pure-IsBalanced : (a : A) → IsBalanced (pure {R = R} {O = O} a)
  unfolding pure
  pure-IsBalanced a = record { held = λ w. refl }

  pub fail-IsBalanced : (e : ℤ) → IsBalanced (fail {R = R} {O = O} {A = A} e)
  unfolding fail
  fail-IsBalanced e = record { held = λ w. refl }

  pub ask-IsBalanced : (f : ℕ → Result A) → IsBalanced (ask {R = R} {O = O} f)
  unfolding ask
  ask-IsBalanced f = record { held = λ w. refl }

  pub attempt-IsBalanced : {m : Run R O A} → IsBalanced m → IsBalanced (attempt m)
  unfolding attempt
  attempt-IsBalanced h = record { held = h.held }

  pub if-IsBalanced :
      (b : Bool) {m k : Run R O A} → IsBalanced m → IsBalanced k → IsBalanced (if b then m else k)
  if-IsBalanced true hm hk = hm
  if-IsBalanced false hm hk = hk

  pub bracket-IsBalanced :
      ⦃i : Resource R⦄ (r : R) {m : Run R O A} → IsBalanced m → IsBalanced (bracket r m)
  unfolding bracket
  bracket-IsBalanced r h = record {
    held = λ w.
        ap (release r) (h.held (record w { ledger = acquire r w.ledger }))
        ∙ release-acquire r w.ledger;
  }

pub emit-IsBalanced : {R O : Type 0} (o : O) → IsBalanced (emit {R = R} o)
unfolding emit
emit-IsBalanced o = record { held = λ w. refl }

pub >>=-IsBalanced :
    {R O A B : Type 0} {m : Run R O A} {f : A → Run R O B}
    → IsBalanced m
    → ((a : A) → IsBalanced (f a))
    → IsBalanced (m >>= f)
unfolding ◌>>=◌
>>=-IsBalanced {m} {f} hm hf = record {
  held = λ w. elim (Result-cases (m w).0) [
    | inl (e, failed) ↦ rw (failed, ◌>>=◌) (hm.held w)
    | inr (a, done) ↦ rw (done, ◌>>=◌) ((hf a).held (m w).1 ∙ hm.held w)
  ];
}

-- A success leaves one more resource held, which the result names; an error leaves none.
pub record Acquires {R O A : Type 0} ⦃i : Resource R⦄ (r : A → R) (m : Run R O A) : Type 0 where
  pub taken : (w : World R O) (a : A) → (m w).0 ≡ ok a → (m w).1.ledger ≡ acquire (r a) w.ledger
  pub untouched : (w : World R O) (e : ℤ) → (m w).0 ≡ err e → (m w).1.ledger ≡ w.ledger

module _ {R O A : Type 0} ⦃i : Resource R⦄ (r : A → R) where
  pub fail-Acquires : (e : ℤ) → Acquires r (fail {R = R} {O = O} e)
  unfolding fail
  fail-Acquires e = record { taken = λ w a q. cc; untouched = λ w a q. refl }

  pub hold-Acquires : (a : A) → Acquires r (do hold {O = O} (r a); pure a)
  unfolding ◌>>=◌ hold pure
  hold-Acquires a = record {
    taken = λ w b q. let e : a ≡ b = cc q in ap (λ x. acquire (r x) w.ledger) e;
    untouched = λ w e q. cc;
  }

  pub if-Acquires :
      (b : Bool) {m k : Run R O A} → Acquires r m → Acquires r k → Acquires r (if b then m else k)
  if-Acquires true hm hk = hm
  if-Acquires false hm hk = hk

  pub >>=-Acquires :
      {B : Type 0} {m : Run R O B} {f : B → Run R O A}
      → IsBalanced m
      → ((b : B) → Acquires r (f b))
      → Acquires r (m >>= f)
  unfolding ◌>>=◌
  >>=-Acquires {m} {f} hm hf = record {
    taken = λ w a q. elim (Result-cases (m w).0) [
      | inl (e, failed) ↦ cc (failed, q)
      | inr (b, done) ↦
          rw (done, ◌>>=◌)
            ((hf b).taken (m w).1 a (rw (done, ◌>>=◌) at q) ∙ ap (acquire (r a)) (hm.held w))
    ];
    untouched = λ w e q. elim (Result-cases (m w).0) [
      | inl (x, failed) ↦ rw (failed, ◌>>=◌) (hm.held w)
      | inr (b, done) ↦
          rw (done, ◌>>=◌) ((hf b).untouched (m w).1 e (rw (done, ◌>>=◌) at q) ∙ hm.held w)
    ];
  }

  -- What was acquired is given back after a balanced body.
  pub closing-IsBalanced :
      {B : Type 0} {m : Run R O A} {f : A → Run R O B}
      → Acquires r m
      → ((a : A) → IsBalanced (f a))
      → IsBalanced (m >>= λ a. closing (r a) (f a))
  unfolding ◌>>=◌ closing
  closing-IsBalanced {m} {f} hm hf = record {
    held = λ w. elim (Result-cases (m w).0) [
      | inl (x, failed) ↦ rw (failed, ◌>>=◌) (hm.untouched w x failed)
      | inr (a, done) ↦
          rw (done, ◌>>=◌)
            (ap (release (r a)) ((hf a).held (m w).1 ∙ hm.taken w a done)
              ∙ release-acquire (r a) w.ledger)
    ];
  }

pub ruleset balance = (
  >>=-IsBalanced, if-IsBalanced, ask-IsBalanced, emit-IsBalanced, bracket-IsBalanced,
  attempt-IsBalanced, pure-IsBalanced, fail-IsBalanced,
)
