-- ===== src/Common/World/Starts.antt =====
-- Computations that take resources, and keep none of them if they fail.
use embedded_linux_bsp.Common.{ℕ, ◌+◌, ◌≡◌, refl, ◌∙◌, ap, ◌⊎◌, inl, inr, ℤ}
use embedded_linux_bsp.Common.Ledger.{Resource, Ledger, acquire, release, release-acquire}
use embedded_linux_bsp.Common.World.{
  Result, Result-cases, ok, err, World, Run, pure, ◌>>=◌, ◌>>◌, ask, hold, or_undo,
}

-- An action that fails with the ledger it was given, or succeeds and holds `held x` more; `x` says which of
-- several ways to succeed it was.
abbrev pub Starts : {R O X A : Type 0} → Run R O A → (X → Ledger R → Ledger R) → Type 0
Starts {R} {O} {X} {A} body held =
    (w : World R O)
    → ((e : ℤ) × ((body w).0 ≡ err e) × ((body w).1.ledger ≡ w.ledger))
      ⊎ ((x : X) × ((a : A) × ((body w).0 ≡ ok a)) × ((body w).1.ledger ≡ held x w.ledger))

pub ask-Starts :
    {R O X A : Type 0} (answer : ℕ → Result (Unit {0})) (body : Run R O A)
    (held : X → Ledger R → Ledger R)
    → Starts body held
    → Starts (ask answer >> body) held
unfolding ◌>>=◌ ask
ask-Starts answer body held starts w = elim (Result-cases (answer w.tick)) [
  | inl (e, q) ↦ inl (e, rw (q, ◌>>=◌) refl, rw (q, ◌>>=◌) refl)
  | inr (_, q) ↦ rw (q, ◌>>=◌) (starts (record w { tick = w.tick + 1 }))
]

module _ {R O X A : Type 0} ⦃i : Resource R⦄ where
  pub or_undo-Starts :
      (a : R) (body : Run R O A) (held : X → Ledger R → Ledger R)
      → Starts body held
      → Starts (or_undo a body) (λ x l. held x (acquire a l))
  unfolding or_undo
  or_undo-Starts a body held starts w = elim (starts (record w { ledger = acquire a w.ledger })) [
    | inl (e, q, l) ↦
        inl
          (e, rw (or_undo, q) refl, rw (or_undo, q) (ap (release a) l ∙ release-acquire a w.ledger))
    | inr (x, (r, q), l) ↦ inr (x, (r, rw (or_undo, q) refl), rw (or_undo, q) l)
  ]

  -- the last resource, and a result
  pub hold-Starts :
      (a : R) (r : A) (x : X) → Starts {X = X} (hold {O = O} a >> pure r) (λ _ l. acquire a l)
  unfolding ◌>>=◌ hold pure
  hold-Starts a r x w = inr (x, (r, refl), refl)
