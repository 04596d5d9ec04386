-- ===== src/Common/World/Puts.antt =====
-- What a computation puts out: nothing at all (`IsSilent`), or a list of calls that fits its result
-- (`Puts`), with the rules for a `do` block.
use embedded_linux_bsp.Common.{
  ℕ, ◌≡◌, ◌≢◌, refl, sym, ◌∙◌, ap, inl, inr, Bool, true, false, ℤ, if◌then◌else◌, List, [], ◌∷◌,
  ◌++◌,
}
use mathlib.Core.List.{append-nil, append_assoc}
use embedded_linux_bsp.Common.Ledger.{Resource, acquire}
use embedded_linux_bsp.Common.World.{
  Result, ok, err, Result-cases, World, Run, pure, fail, ◌>>=◌, ◌>>◌, attempt, ask, emit, bracket,
  hold, give_back, closing,
}
use embedded_linux_bsp.Common.World.Ensures.{Ensures, Succeeds}

pub record IsSilent {R O A : Type 0} (m : Run R O A) : Type 0 where
  pub quiet : (w : World R O) → (m w).1.out ≡ w.out

pub record Puts {R O A : Type 0} (P : Result A → List O → Type 0) (m : Run R O A) : Type 0 where
  pub put : (w : World R O) → (calls : List O) × ((m w).1.out ≡ w.out ++ calls) × P (m w).0 calls

module _ {R O A : Type 0} where
  pub pure-IsSilent : (a : A) → IsSilent (pure {R = R} {O = O} a)
  unfolding pure
  pure-IsSilent a = record { quiet = λ w. refl }

  pub fail-IsSilent : (e : ℤ) → IsSilent (fail {R = R} {O = O} {A = A} e)
  unfolding fail
  fail-IsSilent e = record { quiet = λ w. refl }

  pub ask-IsSilent : (f : ℕ → Result A) → IsSilent (ask {R = R} {O = O} f)
  unfolding ask
  ask-IsSilent f = record { quiet = λ w. refl }

  pub attempt-IsSilent : {m : Run R O A} → IsSilent m → IsSilent (attempt m)
  unfolding attempt
  attempt-IsSilent h = record { quiet = h.quiet }

  pub if-IsSilent :
      (b : Bool) {m k : Run R O A} → IsSilent m → IsSilent k → IsSilent (if b then m else k)
  if-IsSilent true hm hk = hm
  if-IsSilent false hm hk = hk

  module _ ⦃i : Resource R⦄ (r : R) {m : Run R O A} where
    pub bracket-IsSilent : IsSilent m → IsSilent (bracket r m)
    unfolding bracket
    bracket-IsSilent h = record { quiet = λ w. h.quiet (record w { ledger = acquire r w.ledger }) }

    pub closing-IsSilent : IsSilent m → IsSilent (closing r m)
    unfolding closing
    closing-IsSilent h = record { quiet = h.quiet }

module _ {R O : Type 0} ⦃i : Resource R⦄ (r : R) where
  pub hold-IsSilent : IsSilent (hold {O = O} r)
  unfolding hold
  hold-IsSilent = record { quiet = λ w. refl }

  pub give_back-IsSilent : IsSilent (give_back {O = O} r)
  unfolding give_back
  give_back-IsSilent = record { quiet = λ w. refl }

module _ {R O A B : Type 0} {m : Run R O A} {f : A → Run R O B} where
  pub >>=-IsSilent : IsSilent m → ((a : A) → IsSilent (f a)) → IsSilent (m >>= f)
  unfolding ◌>>=◌
  >>=-IsSilent hm hf = record {
    quiet = λ w. elim (Result-cases (m w).0) [
      | inl (e, failed) ↦ rw (failed, ◌>>=◌) (hm.quiet w)
      | inr (a, done) ↦ rw (done, ◌>>=◌) ((hf a).quiet (m w).1 ∙ hm.quiet w)
    ];
  }

  -- First a silent part, of which `Q` is known when it returns.
  pub silent-Puts :
      (Q : A → Type 0) (P : Result B → List O → Type 0)
      → IsSilent m
      → Ensures Q m
      → ((w : World R O) (e : ℤ) → (m w).0 ≡ err e → P (err e) [])
      → ((a : A) → Q a → Puts P (f a))
      → Puts P (m >>= f)
  unfolding ◌>>=◌
  silent-Puts Q P hm known failing hf = record {
    put = λ w. elim (Result-cases (m w).0) [
      | inl (e, q) ↦ rw (q, ◌>>=◌) ([], hm.quiet w ∙ sym (append-nil w.out), failing w e q)
      | inr (a, q) ↦
          let (calls, same, p) = (hf a (known.post w a q)).put (m w).1 in
          rw (q, ◌>>=◌) (calls, same ∙ ap (λ l. l ++ calls) (hm.quiet w), p)
    ];
  }

  -- After it only silent parts, and nothing is said of the result.
  pub Puts-silent :
      (S : List O → Type 0)
      → Puts (λ _ calls. S calls) m
      → ((a : A) → IsSilent (f a))
      → Puts (λ _ calls. S calls) (m >>= f)
  unfolding ◌>>=◌
  Puts-silent S hm hf = record {
    put = λ w.
        let (calls, same, p) = hm.put w in
        elim (Result-cases (m w).0) [
          | inl (e, q) ↦ rw (q, ◌>>=◌) (calls, same, p)
          | inr (a, q) ↦ rw (q, ◌>>=◌) (calls, (hf a).quiet (m w).1 ∙ same, p)
        ];
  }

module _ {R O A : Type 0} (P : Result A → List O → Type 0) where
  -- A silent end.
  pub end-Puts : {m : Run R O A} → IsSilent m → ((w : World R O) → P (m w).0 []) → Puts P m
  end-Puts hm p = record { put = λ w. ([], hm.quiet w ∙ sym (append-nil w.out), p w) }

  -- A silent end that returns.
  pub return-Puts : {m : Run R O A} → IsSilent m → Succeeds (λ a. P (ok a) []) m → Puts P m
  return-Puts {m} hm h = end-Puts hm λ w. let (a, done, p) = h.returns w in rw done p

  pub emit-Puts :
      (o : O) {k : Run R O A} → Puts (λ r calls. P r (o ∷ calls)) k → Puts P (emit o >> k)
  unfolding ◌>>=◌ emit
  emit-Puts o h = record {
    put = λ w.
        let (calls, same, p) = h.put (record w { out = w.out ++ o ∷ [] }) in
        (o ∷ calls, same ∙ append_assoc w.out (o ∷ []) calls, p);
  }

  pub bracket-Puts : ⦃i : Resource R⦄ (r : R) {m : Run R O A} → Puts P m → Puts P (bracket r m)
  unfolding bracket
  bracket-Puts r h = record { put = λ w. h.put (record w { ledger = acquire r w.ledger }) }

pub Puts-map :
    {R O A : Type 0} (P Q : Result A → List O → Type 0) {m : Run R O A}
    → ((r : Result A) (calls : List O) → P r calls → Q r calls)
    → Puts P m
    → Puts Q m
Puts-map P Q {m} f h = record {
  put = λ w. let (calls, same, p) = h.put w in (calls, same, f (m w).0 calls p);
}

pub attempt-Puts :
    {R O A : Type 0} (S : List O → Type 0) {m : Run R O A}
    → Puts (λ _ calls. S calls) m
    → Puts (λ _ calls. S calls) (attempt m)
unfolding attempt
attempt-Puts S h = record { put = h.put }

-- An attempted call always returns.
pub attempt-returns :
    {R O A : Type 0} (m : Run R O A) (w : World R O) (e : ℤ) → (attempt m w).0 ≢ err e
unfolding attempt
attempt-returns m w e q = cc q

pub ruleset silence = (
  >>=-IsSilent, if-IsSilent, ask-IsSilent, bracket-IsSilent, closing-IsSilent, attempt-IsSilent,
  pure-IsSilent, fail-IsSilent, hold-IsSilent, give_back-IsSilent,
)
