-- ===== src/Common/World/Ensures.antt =====
-- What a computation returns: of every successful return (`Ensures`), and that it returns at all
-- (`Succeeds`) or always fails (`Fails`), with the rules for a `do` block.
use embedded_linux_bsp.Common.{
  ℕ, ◌≡◌, refl, sym, ◌∙◌, subst, inl, inr, Bool, true, false, ℤ, if◌then◌else◌,
}
use embedded_linux_bsp.Common.Ledger.{Resource, acquire}
use embedded_linux_bsp.Common.World.{
  Result, attempt, ok, err, Result-cases, World, Run, pure, fail, ◌>>=◌, ask, bracket, closing,
  hold, give_back,
}

pub record Ensures {R O A : Type 0} (P : A → Type 0) (m : Run R O A) : Type 0 where
  pub post : (w : World R O) (a : A) → (m w).0 ≡ ok a → P a

pub record Succeeds {R O A : Type 0} (P : A → Type 0) (m : Run R O A) : Type 0 where
  pub returns : (w : World R O) → (a : A) × ((m w).0 ≡ ok a) × P a

pub record Fails {R O A : Type 0} (m : Run R O A) : Type 0 where
  pub error : (w : World R O) → (e : ℤ) × ((m w).0 ≡ err e)

ok-injective : {A : Type 0} {a b : A} → ok a ≡ ok b → a ≡ b
ok-injective p = cc

module _ {R O A : Type 0} (P : A → Type 0) where
  pub pure-Ensures : (a : A) → P a → Ensures P (pure {R = R} {O = O} a)
  unfolding pure
  pure-Ensures a h = record { post = λ w b e. subst P (ok-injective e) h }

  pub fail-Ensures : (e : ℤ) → Ensures P (fail {R = R} {O = O} {A = A} e)
  unfolding fail
  fail-Ensures e = record { post = λ w b q. cc }

  pub ask-Ensures :
      (f : ℕ → Result A) → ((t : ℕ) (a : A) → f t ≡ ok a → P a) → Ensures P (ask {R = R} {O = O} f)
  unfolding ask
  ask-Ensures f h = record { post = λ w a e. h w.tick a e }

  pub if-Ensures :
      (b : Bool) {m k : Run R O A}
      → (b ≡ true → Ensures P m)
      → (b ≡ false → Ensures P k)
      → Ensures P (if b then m else k)
  if-Ensures true hm hk = hm refl
  if-Ensures false hm hk = hk refl

  pub bracket-Ensures :
      ⦃i : Resource R⦄ (r : R) {m : Run R O A} → Ensures P m → Ensures P (bracket r m)
  unfolding bracket
  bracket-Ensures r h = record {
    post = λ w a e. h.post (record w { ledger = acquire r w.ledger }) a e;
  }

  pub closing-Ensures :
      ⦃i : Resource R⦄ (r : R) {m : Run R O A} → Ensures P m → Ensures P (closing r m)
  unfolding closing
  closing-Ensures r h = record { post = h.post }

  pub pure-Succeeds : (a : A) → P a → Succeeds P (pure {R = R} {O = O} a)
  unfolding pure
  pure-Succeeds a h = record { returns = λ w. (a, refl, h) }

  pub ask-Succeeds :
      (f : ℕ → Result A)
      → ((t : ℕ) → (a : A) × (f t ≡ ok a) × P a)
      → Succeeds P (ask {R = R} {O = O} f)
  unfolding ask
  ask-Succeeds f h = record { returns = λ w. h w.tick }

  pub bracket-Succeeds :
      ⦃i : Resource R⦄ (r : R) {m : Run R O A} → Succeeds P m → Succeeds P (bracket r m)
  unfolding bracket
  bracket-Succeeds r h = record {
    returns = λ w. h.returns (record w { ledger = acquire r w.ledger });
  }

module _ {R O A B : Type 0} (Q : A → Type 0) (P : B → Type 0) {m : Run R O A}
    {f : A → Run R O B} where
  pub >>=-Ensures : Ensures Q m → ((a : A) → Q a → Ensures P (f a)) → Ensures P (m >>= f)
  unfolding ◌>>=◌
  >>=-Ensures hm hf = record {
    post = λ w b e. elim (Result-cases (m w).0) [
      | inl (x, failed) ↦ cc (failed, e)
      | inr (a, done) ↦ (hf a (hm.post w a done)).post (m w).1 b (rw (done, ◌>>=◌) at e)
    ];
  }

  pub >>=-Succeeds : Succeeds Q m → ((a : A) → Q a → Succeeds P (f a)) → Succeeds P (m >>= f)
  unfolding ◌>>=◌
  >>=-Succeeds hm hf = record {
    returns = λ w.
        let (a, done, qa) = hm.returns w in
        let (b, finished, pb) = (hf a qa).returns (m w).1 in (b, rw (done, ◌>>=◌) finished, pb);
  }

module _ {R O A B : Type 0} where
  pub first-Fails : {m : Run R O A} (f : A → Run R O B) → Fails m → Fails (m >>= f)
  unfolding ◌>>=◌
  first-Fails f h = record { error = λ w. let (e, q) = h.error w in (e, rw (q, ◌>>=◌) refl) }

  pub rest-Fails : (m : Run R O A) {f : A → Run R O B} → ((a : A) → Fails (f a)) → Fails (m >>= f)
  unfolding ◌>>=◌
  rest-Fails m h = record {
    error = λ w. elim (Result-cases (m w).0) [
      | inl (e, q) ↦ (e, rw (q, ◌>>=◌) refl)
      | inr (a, q) ↦ let (e, r) = (h a).error (m w).1 in (e, rw (q, ◌>>=◌) r)
    ];
  }

-- What is known of the answer to an attempted call.
abbrev pub Answered : {A : Type 0} → (ℕ → Result A) → Result A → Type 0
Answered f r = (t : ℕ) × (f t ≡ r)

pub attempt-Ensures :
    {R O A : Type 0} (f : ℕ → Result A) → Ensures {R = R} {O = O} (Answered f) (attempt (ask f))
unfolding attempt ask
attempt-Ensures f = record { post = λ w r e. (w.tick, let q : f w.tick ≡ r = cc e in q) }

pub Succeeds-Ensures :
    {R O A : Type 0} (P : A → Type 0) {m : Run R O A} → Succeeds P m → Ensures P m
Succeeds-Ensures P h = record {
  post = λ w a e.
      let (b, done, p) = h.returns w in
      let same : b ≡ a = ok-injective (sym done ∙ e) in subst P same p;
}

-- Both what a sure return gives and what every return gives.
pub Succeeds-and :
    {R O A : Type 0} (P Q : A → Type 0) {m : Run R O A}
    → Succeeds P m
    → Ensures Q m
    → Succeeds (λ a. P a × Q a) m
Succeeds-and P Q h k = record {
  returns = λ w. let (a, done, p) = h.returns w in (a, done, (p, k.post w a done));
}

-- It returns, whatever the answers.
abbrev pub Returns : {R O A : Type 0} → Run R O A → Type 0
Returns m = Succeeds (λ _. Unit) m

module _ {R O : Type 0} where
  pub attempt-Returns : {A : Type 0} (m : Run R O A) → Returns (attempt m)
  unfolding attempt
  attempt-Returns m = record { returns = λ w. ((m w).0, refl, tt) }

  pub >>=-Returns :
      {A B : Type 0} {m : Run R O A} {f : A → Run R O B}
      → Returns m
      → ((a : A) → Returns (f a))
      → Returns (m >>= f)
  >>=-Returns hm hf = >>=-Succeeds _ _ hm λ a _. hf a

  pub pure-Returns : {A : Type 0} (a : A) → Returns (pure {R = R} {O = O} a)
  pure-Returns a = pure-Succeeds _ a tt

  pub hold-Returns : ⦃i : Resource R⦄ (r : R) → Returns (hold {O = O} r)
  unfolding hold
  hold-Returns r = record { returns = λ w. (tt, refl, tt) }

  pub give_back-Returns : ⦃i : Resource R⦄ (r : R) → Returns (give_back {O = O} r)
  unfolding give_back
  give_back-Returns r = record { returns = λ w. (tt, refl, tt) }

  pub then-Succeeds :
      {A B : Type 0} (P : B → Type 0) {m : Run R O A} {k : Run R O B}
      → Returns m
      → Succeeds P k
      → Succeeds P (m >>= λ _. k)
  then-Succeeds P hm hk = >>=-Succeeds _ P hm λ _ _. hk

  -- What always returns has no error.
  pub no_error :
      {A P : Type 0} (Q : A → Type 0) {m : Run R O A} (w : World R O) (e : ℤ)
      → Succeeds Q m
      → (m w).0 ≡ err e
      → P
  no_error Q w e h failed = let (a, done, _) = h.returns w in cc (failed, done)

pub ruleset returning =
    (>>=-Returns, attempt-Returns, pure-Returns, hold-Returns, give_back-Returns)

-- What is known of the result of an attempted computation.
abbrev pub Attempted : {R O A : Type 0} → Run R O A → Result A → Type 0
Attempted {R} {O} m r = (w : World R O) × ((m w).0 ≡ r)

pub attempt-Ensures_run : {R O A : Type 0} (m : Run R O A) → Ensures (Attempted m) (attempt m)
unfolding attempt
attempt-Ensures_run m = record { post = λ w r e. (w, let q : (m w).0 ≡ r = cc e in q) }
