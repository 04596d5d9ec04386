-- ===== src/HashChain/Digest.antt =====
-- What hash_chain_minimal.c computes, against SHA-256 of a whole file and a fold over the components.
use Prim.Native.String.{String}
use mathlib.Core.List.{foldl, append-nil, append_assoc}
use embedded_linux_bsp.Common.{
  ℕ, zero, suc, negsuc, ◌==◌, ◌≡◌, refl, subst, sym, ◌∙◌, ap, inl, inr, List, [], ◌∷◌, ◌++◌, map,
  take, drop, take-append-drop, arith,
}
use embedded_linux_bsp.Common.World.{ok, Result-cases, ◌>>=◌, emit}
use embedded_linux_bsp.Common.World.Ensures.{
  Ensures, pure-Ensures, fail-Ensures, ask-Ensures, if-Ensures, bracket-Ensures, >>=-Ensures,
}
use embedded_linux_bsp.HashChain.Env.{
  Files, Evp, EvpLaws, Session, Stream, Line, file, context, handle_resource,
}
use embedded_linux_bsp.HashChain.{
  sha256_len, read_chunk, absorb_file, finish, digest_stream, sha256_file, extend_chain,
  extend_with, initial_chain, measure_all, print_hex, hex, run, main,
}

-- One step of the chain, and the chain over a sequence of measurements: the code's specification.
abbrev pub extend : (List ℕ → List ℕ) → List ℕ → List ℕ → List ℕ
extend hash chain measurement = hash (chain ++ measurement)

abbrev pub chain_of : (List ℕ → List ℕ) → List (List ℕ) → List ℕ
chain_of hash = foldl (extend hash) initial_chain

module _ (e : Evp) (files : Files) (hash : List ℕ → List ℕ) (laws : EvpLaws e hash) where
  open e use {Ctx}
  open laws use {absorbed, init-absorbed, update-absorbed, final-digest}

  -- Chunk by chunk the whole file reaches the digest.
  absorb_file-Ensures :
      (fuel : ℕ) (c : Ctx) (bs : List ℕ)
      → Ensures (λ d. absorbed d ≡ absorbed c ++ bs) (absorb_file e files fuel c bs)
  unfolding absorb_file
  absorb_file-Ensures zero c bs = fail-Ensures _ _
  absorb_file-Ensures (suc fuel) c [] = pure-Ensures _ c (sym (append-nil _))
  absorb_file-Ensures (suc fuel) c (b ∷ bs) =
      >>=-Ensures (λ d. absorbed d ≡ absorbed c ++ take read_chunk (b ∷ bs)) _
        (ask-Ensures _ _ (λ t d. update-absorbed t c (take read_chunk (b ∷ bs)) d))
        (λ d q.
          subst
            (λ r.
              Ensures (λ x. absorbed x ≡ r) (absorb_file e files fuel d (drop read_chunk (b ∷ bs))))
            (chunks d q) (absorb_file-Ensures fuel d (drop read_chunk (b ∷ bs))))
    where
      chunks :
          (d : Ctx)
          → absorbed d ≡ absorbed c ++ take read_chunk (b ∷ bs)
          → absorbed d ++ drop read_chunk (b ∷ bs) ≡ absorbed c ++ b ∷ bs
      chunks d q =
          ap (λ x. x ++ drop read_chunk (b ∷ bs)) q
          ∙ append_assoc (absorbed c) _ _
          ∙ ap (λ x. absorbed c ++ x) (take-append-drop read_chunk (b ∷ bs))

  finish-Ensures : (c : Ctx) → Ensures (λ out. out ≡ hash (absorbed c)) (finish e files c)
  unfolding finish
  finish-Ensures c =
      >>=-Ensures (λ r. r.0 ≡ hash (absorbed c)) _
        (ask-Ensures _ _ (λ t r q. final-digest t c r.0 r.1 q))
        (λ r q.
          if-Ensures _ (r.1 == sha256_len) (λ _. pure-Ensures _ _ q)
            (λ _. fail-Ensures _ (negsuc 0)))

  digest_stream-Ensures :
      (s : Stream) (c : Ctx) → Ensures (λ out. out ≡ hash s.bytes) (digest_stream e files s c)
  unfolding digest_stream
  digest_stream-Ensures s c =
      >>=-Ensures (λ d. absorbed d ≡ []) _ (ask-Ensures _ _ (λ t. init-absorbed t c))
        λ d fresh.
          >>=-Ensures (λ x. absorbed x ≡ absorbed d ++ s.bytes) _ (absorb_file-Ensures _ d s.bytes)
            λ x q.
              if-Ensures _ s.failed (λ _. fail-Ensures _ _)
                λ _.
                  subst (λ y. Ensures (λ out. out ≡ hash y) (finish e files x))
                    (q ∙ ap (λ y. y ++ s.bytes) fresh) (finish-Ensures x)

  -- If the digest interface computes `hash` as its laws say, and the file does not change, then when `sha256_file`
  -- returns 0, the bytes written are the digest of all that the file holds.
  pub sha256_file-Ensures :
      (contents : String → List ℕ) (path : String)
      → ((t : ℕ) (s : Stream) → files t path ≡ ok s → s.bytes ≡ contents path)
      → Ensures (λ out. out ≡ hash (contents path)) (sha256_file e files path)
  unfolding sha256_file
  sha256_file-Ensures contents path stable =
      >>=-Ensures (λ s. s.bytes ≡ contents path) _ (ask-Ensures _ _ (λ t s. stable t s))
        λ s q. bracket-Ensures _ file (
          >>=-Ensures (λ _. Unit) _ (ask-Ensures _ _ (λ t c _. tt))
            λ c _. bracket-Ensures _ context (
              subst (λ y. Ensures (λ out. out ≡ hash y) (digest_stream e files s c)) q
                (digest_stream-Ensures s c)))

  extend_with-Ensures :
      (old m : List ℕ) (c : Ctx)
      → Ensures (λ out. out ≡ extend hash old m) (extend_with e files old m c)
  unfolding extend_with
  extend_with-Ensures old m c =
      >>=-Ensures (λ d. absorbed d ≡ []) _ (ask-Ensures _ _ (λ t. init-absorbed t c))
        λ d fresh.
          >>=-Ensures (λ x. absorbed x ≡ old) _
            (ask-Ensures _ _ (λ t x r. update-absorbed t d old x r ∙ ap (λ y. y ++ old) fresh))
            λ x first.
              >>=-Ensures (λ z. absorbed z ≡ old ++ m) _
                (ask-Ensures _ _ (λ t z r. update-absorbed t x m z r ∙ ap (λ y. y ++ m) first))
                λ z q.
                  subst (λ y. Ensures (λ out. out ≡ hash y) (finish e files z)) q (finish-Ensures z)

  -- If the digest interface computes `hash` as its laws say, then when `extend_chain` returns 0, the new chain
  -- is the digest of the old chain followed by the measurement.
  pub extend_chain-Ensures :
      (old m : List ℕ) → Ensures (λ out. out ≡ extend hash old m) (extend_chain e files old m)
  unfolding extend_chain
  extend_chain-Ensures old m =
      >>=-Ensures (λ _. Unit) _ (ask-Ensures _ _ (λ t c _. tt))
        λ c _. bracket-Ensures _ context (extend_with-Ensures old m c)

  module _ (contents : String → List ℕ)
      (stable : (path : String) (t : ℕ) (s : Stream)
        → files t path ≡ ok s
        → s.bytes ≡ contents path) where
    abbrev measurements : List String → List (List ℕ)
    measurements = map (λ path. hash (contents path))

    measure_all-Ensures :
        (paths : List String) (chain : List ℕ)
        → Ensures
            (λ out. out ≡ foldl (extend hash) chain (measurements paths))
            (measure_all e files paths chain)
    unfolding measure_all
    measure_all-Ensures [] chain = pure-Ensures _ chain refl
    measure_all-Ensures (path ∷ rest) chain =
        >>=-Ensures (λ m. m ≡ hash (contents path)) _
          (sha256_file-Ensures contents path (stable path))
          λ m q.
            >>=-Ensures (λ _. Unit) _ (record { post = λ w a _. tt })
              λ _ _.
                >>=-Ensures (λ c. c ≡ extend hash chain m) _ (extend_chain-Ensures chain m)
                  λ c r.
                    >>=-Ensures (λ _. Unit) _ (record { post = λ w a _. tt })
                      λ _ _.
                        subst
                          (λ y.
                            Ensures (λ out. out ≡ foldl (extend hash) y (measurements rest))
                              (measure_all e files rest c))
                          (r ∙ ap (extend hash chain) q) (measure_all-Ensures rest c)

    -- If the digest interface computes `hash` as its laws say, and the files do not change, then when `main` exits
    -- with 0, its last line of digits is the chain over the digests of the components, in order.
    pub main-digest :
        (name : String) (paths : List String) (w : Session)
        → (main e files (name ∷ paths) w).0 ≡ 0
        → (before : List Line) × ((main e files (name ∷ paths) w).1.out
            ≡ before
              ++ record {
                label = "final chain digest: ";
                text = hex (chain_of hash (measurements paths));
              }
                ∷ [])
    unfolding main run print_hex ◌>>=◌ emit
    main-digest name [] w h = absurd (omega arith)
    main-digest name (path ∷ rest) w h =
        elim (Result-cases (measure_all e files (path ∷ rest) initial_chain begun).0) [
          | inl (x, failed) ↦ absurd (ground (arith, failed))
          | inr (chain, done) ↦ (
            (measure_all e files (path ∷ rest) initial_chain begun).1.out,
            rw (done, ◌>>=◌)
                (ap
                  (λ c.
                    (measure_all e files (path ∷ rest) initial_chain begun).1.out
                    ++ record { label = "final chain digest: "; text = hex c } ∷ [])
                  ((measure_all-Ensures (path ∷ rest) initial_chain).post begun chain done)),
          )
        ]
      where
        begun : Session
        begun = record w {
          out = w.out ++ record { label = "initial chain: "; text = hex initial_chain } ∷ [];
        }
