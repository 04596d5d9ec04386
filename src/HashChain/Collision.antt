-- ===== src/HashChain/Collision.antt =====
-- The chain of hash_chain_minimal.c for two sequences of measurements.
use mathlib.Core.List.{reverse, reverse-reverse, reverse-append, foldl-append, append_assoc}
use native.Mathlib.Decide.{ℕ_discrete}
use embedded_linux_bsp.Common.{
  ℕ, ◌≡◌, refl, sym, ◌∙◌, ap, ◌≢◌, ◌⊎◌, inl, inr, List, [], ◌∷◌, ◌++◌, length, arith,
}
use embedded_linux_bsp.HashChain.{initial_chain}
use embedded_linux_bsp.HashChain.Digest.{extend, chain_of}

-- What the program hashes on the way to the chain over `ms`.
abbrev pub IsHashed : (List ℕ → List ℕ) → List (List ℕ) → List ℕ → Type 0
IsHashed hash ms x =
    (before : List (List ℕ)) × ((m : List ℕ) × ((after : List (List ℕ)) × ((ms
            ≡ before ++ m ∷ after)
          × (x ≡ chain_of hash before ++ m))))

-- Two different inputs with one digest, one hashed for each of the chains.
abbrev pub Collision : (List ℕ → List ℕ) → List (List ℕ) → List (List ℕ) → Type 0
Collision hash ms ns =
    (x : List ℕ) × ((y : List ℕ) × (IsHashed hash ms x
        × (IsHashed hash ns y × ((x ≢ y) × (hash x ≡ hash y)))))

-- An input hashed for the chain, whose digest is 32 zero bytes.
abbrev pub ZeroPreimage : (List ℕ → List ℕ) → List (List ℕ) → Type 0
ZeroPreimage hash ms = (x : List ℕ) × (IsHashed hash ms x × (hash x ≡ initial_chain))

bytes_discrete : Discrete (List ℕ)
bytes_discrete = hlevel ℕ_discrete

-- Texts of one length in front: the two parts agree.
append-split :
    (a b : List ℕ) (m n : List ℕ) → length a ≡ length b → a ++ m ≡ b ++ n → (a ≡ b) × (m ≡ n)
append-split [] [] m n h e = (refl, e)
append-split [] (y ∷ b) m n h e = absurd (omega arith)
append-split (x ∷ a) [] m n h e = absurd (omega arith)
append-split (x ∷ a) (y ∷ b) m n h e =
    let (p, q) = append-split a b m n (omega arith) (cc e) in (cc (p, e), q)

module _ (hash : List ℕ → List ℕ) (size : (x : List ℕ) → length (hash x) ≡ 32) where
  -- The chain from the last measurement back.
  chain_back : List (List ℕ) → List ℕ
  chain_back [] = initial_chain
  chain_back (m ∷ ms) = hash (chain_back ms ++ m)

  length-chain_back : (ms : List (List ℕ)) → length (chain_back ms) ≡ 32
  unfolding chain_back initial_chain
  length-chain_back [] = refl
  length-chain_back (m ∷ ms) = size _

  -- `IsHashed`, for the list from the last measurement back.
  abbrev HashedBack : List (List ℕ) → List ℕ → Type 0
  HashedBack ms x =
      (newer : List (List ℕ)) × ((m : List ℕ) × ((older : List (List ℕ)) × ((ms
              ≡ newer ++ m ∷ older)
            × (x ≡ chain_back older ++ m))))

  HashedBack-step :
      (m : List ℕ) (ms : List (List ℕ)) (x : List ℕ) → HashedBack ms x → HashedBack (m ∷ ms) x
  HashedBack-step m ms x (newer, (n, (older, (split, at)))) =
      (m ∷ newer, (n, (older, (ap (λ l. m ∷ l) split, at))))

  HashedBack-head : (m : List ℕ) (ms : List (List ℕ)) → HashedBack (m ∷ ms) (chain_back ms ++ m)
  HashedBack-head m ms = ([], (m, (ms, (refl, refl))))

  abbrev Broken : List (List ℕ) → List (List ℕ) → Type 0
  Broken ms ns =
      ((x : List ℕ) × ((y : List ℕ) × (HashedBack ms x
            × (HashedBack ns y × ((x ≢ y) × (hash x ≡ hash y))))))
      ⊎ (((x : List ℕ) × (HashedBack ms x × (hash x ≡ initial_chain)))
          ⊎ ((x : List ℕ) × (HashedBack ns x × (hash x ≡ initial_chain))))

  Broken-step : (m n : List ℕ) (ms ns : List (List ℕ)) → Broken ms ns → Broken (m ∷ ms) (n ∷ ns)
  Broken-step m n ms ns (inl (x, (y, (p, (q, r))))) =
      inl (x, (y, (HashedBack-step m ms x p, (HashedBack-step n ns y q, r))))
  Broken-step m n ms ns (inr (inl (x, (p, r)))) = inr (inl (x, (HashedBack-step m ms x p, r)))
  Broken-step m n ms ns (inr (inr (x, (p, r)))) = inr (inr (x, (HashedBack-step n ns x p, r)))

  chain_back-injective :
      (ms ns : List (List ℕ)) → chain_back ms ≡ chain_back ns → (ms ≡ ns) ⊎ Broken ms ns
  unfolding chain_back
  chain_back-injective [] [] e = inl refl
  chain_back-injective [] (n ∷ ns) e = inr (inr (inr (_, (HashedBack-head n ns, sym e))))
  chain_back-injective (m ∷ ms) [] e = inr (inr (inl (_, (HashedBack-head m ms, e))))
  chain_back-injective (m ∷ ms) (n ∷ ns) e =
      elim (bytes_discrete (chain_back ms ++ m) (chain_back ns ++ n)) [
        | no differ ↦
            inr (inl (_, (_, (HashedBack-head m ms, (HashedBack-head n ns, (differ, e))))))
        | yes same ↦
            let (tails, heads) =
              append-split _ _ m n (length-chain_back ms ∙ sym (length-chain_back ns)) same in
            elim (chain_back-injective ms ns tails) [
              | inl q ↦ inl (cc (q, heads))
              | inr broken ↦ inr (Broken-step m n ms ns broken)
            ]
      ]

  chain_of-reverse : (ms : List (List ℕ)) → chain_of hash (reverse ms) ≡ chain_back ms
  unfolding chain_back
  chain_of-reverse [] = refl
  chain_of-reverse (m ∷ ms) =
      ap (chain_of hash) (reverse-append (m ∷ []) ms)
      ∙ foldl-append (extend hash) initial_chain (reverse ms) (m ∷ [])
      ∙ ap (λ c. extend hash c m) (chain_of-reverse ms)

  chain_back-reverse : (ms : List (List ℕ)) → chain_back (reverse ms) ≡ chain_of hash ms
  chain_back-reverse ms =
      sym (chain_of-reverse (reverse ms)) ∙ ap (chain_of hash) (reverse-reverse ms)

  HashedBack-IsHashed :
      (ms : List (List ℕ)) (x : List ℕ) → HashedBack (reverse ms) x → IsHashed hash ms x
  HashedBack-IsHashed ms x (newer, (m, (older, (split, at)))) = (
    reverse older,
    (m, (reverse newer, (whole, at ∙ ap (λ c. c ++ m) (sym (chain_of-reverse older))))),
  )
    where
      whole : ms ≡ reverse older ++ m ∷ reverse newer
      whole =
          sym (reverse-reverse ms)
          ∙ ap reverse split
          ∙ reverse-append newer (m ∷ older)
          ∙ ap (λ l. l ++ reverse newer) (reverse-append (m ∷ []) older)
          ∙ append_assoc (reverse older) (m ∷ []) (reverse newer)

  Broken-reverse :
      (ms ns : List (List ℕ))
      → Broken (reverse ms) (reverse ns)
      → Collision hash ms ns ⊎ (ZeroPreimage hash ms ⊎ ZeroPreimage hash ns)
  Broken-reverse ms ns (inl (x, (y, (p, (q, r))))) =
      inl (x, (y, (HashedBack-IsHashed ms x p, (HashedBack-IsHashed ns y q, r))))
  Broken-reverse ms ns (inr (inl (x, (p, r)))) = inr (inl (x, (HashedBack-IsHashed ms x p, r)))
  Broken-reverse ms ns (inr (inr (x, (p, r)))) = inr (inr (x, (HashedBack-IsHashed ns x p, r)))

  -- Let `hash` give 32 bytes for every input. If two lists of measurements end in the same chain value, then
  -- they are equal, or two different inputs, one hashed on the way to each chain, have one digest, or an
  -- input that was hashed for one of them has 32 zero bytes as its digest.
  pub chain_of-commits :
      (ms ns : List (List ℕ))
      → chain_of hash ms ≡ chain_of hash ns
      → (ms ≡ ns) ⊎ (Collision hash ms ns ⊎ (ZeroPreimage hash ms ⊎ ZeroPreimage hash ns))
  chain_of-commits ms ns e =
      elim (chain_back-injective (reverse ms) (reverse ns)
        (chain_back-reverse ms ∙ e ∙ sym (chain_back-reverse ns))) [
          | inl q ↦ inl (sym (reverse-reverse ms) ∙ ap reverse q ∙ reverse-reverse ns)
          | inr broken ↦ inr (Broken-reverse ms ns broken)
        ]
