-- ===== src/HashChain/Complete.antt =====
-- When hash_chain_minimal.c returns a result: the loop that reads a file, and the exit status of `main`.
use Prim.Native.String.{String}
use embedded_linux_bsp.Common.{
  ℕ, zero, suc, ◌<◌, ◌≡◌, refl, subst, false, List, [], ◌∷◌, ◌++◌, length, drop, length-drop, arith,
  ℤ, take,
}
use embedded_linux_bsp.Common.World.{ok, err, ask, emit}
use embedded_linux_bsp.Common.World.Ensures.{
  Succeeds, pure-Succeeds, ask-Succeeds, bracket-Succeeds, >>=-Succeeds, Fails, first-Fails,
  rest-Fails,
}
use embedded_linux_bsp.HashChain.Env.{
  Files, Evp, Available, Session, Stream, file, context, handle_resource,
}
use embedded_linux_bsp.HashChain.{
  read_chunk, absorb_file, finish, digest_stream, sha256_file, extend_chain, extend_with,
  initial_chain, measure_all, print_hex, run, main,
}

abbrev Any : {A : Type 0} → A → Type 0
Any _ = Unit

module _ (files : Files) where
  -- `fopen` and `fread` succeed on this path.
  abbrev pub IsReadable : String → Type 0
  IsReadable path = (t : ℕ) → (s : Stream) × (files t path ≡ ok s) × (s.failed ≡ false)

  abbrev pub AllReadable : List String → Type 0
  AllReadable [] = Unit
  AllReadable (path ∷ rest) = IsReadable path × AllReadable rest

module _ (e : Evp) (files : Files) (up : Available e) where
  open e use {Ctx}

  -- The fuel that `sha256_file` gives, one more than the file's length, is enough.
  absorb_file-Succeeds :
      (fuel : ℕ) (c : Ctx) (bs : List ℕ)
      → length bs < fuel
      → Succeeds Any (absorb_file e files fuel c bs)
  unfolding absorb_file
  absorb_file-Succeeds zero c bs h = absurd (omega arith)
  absorb_file-Succeeds (suc fuel) c [] h = pure-Succeeds _ c tt
  absorb_file-Succeeds (suc fuel) c (b ∷ bs) h =
      >>=-Succeeds Any _
        (ask-Succeeds _ _
          λ t. let (d, done) = up.update-ok t c (take read_chunk (b ∷ bs)) in (d, done, tt))
        λ d _.
          absorb_file-Succeeds fuel d (drop read_chunk (b ∷ bs))
            (omega (arith, length-drop {0} read_chunk (b ∷ bs)))

  finish-Succeeds : (c : Ctx) → Succeeds Any (finish e files c)
  unfolding finish
  finish-Succeeds c =
      >>=-Succeeds (λ r. r.1 ≡ 32) _
        (ask-Succeeds _ _ λ t. let (out, done) = up.final-ok t c in ((out, 32), done, refl))
        λ r q. rw q (pure-Succeeds _ _ tt)

  digest_stream-Succeeds :
      (s : Stream) (c : Ctx) → s.failed ≡ false → Succeeds Any (digest_stream e files s c)
  unfolding digest_stream
  digest_stream-Succeeds s c readable =
      >>=-Succeeds Any _ (ask-Succeeds _ _ λ t. let (d, done) = up.init-ok t c in (d, done, tt))
        λ d _.
          >>=-Succeeds Any _ (absorb_file-Succeeds _ d s.bytes (omega arith))
            λ x _. rw readable (finish-Succeeds x)

  sha256_file-Succeeds :
      (path : String) → IsReadable files path → Succeeds Any (sha256_file e files path)
  unfolding sha256_file
  sha256_file-Succeeds path readable =
      >>=-Succeeds (λ s. s.failed ≡ false) _ (ask-Succeeds _ _ readable)
        λ s q. bracket-Succeeds _ file (
          >>=-Succeeds Any _ (ask-Succeeds _ _ λ t. let (c, done) = up.new-ok t in (c, done, tt))
            λ c _. bracket-Succeeds _ context (digest_stream-Succeeds s c q))

  extend_chain-Succeeds : (old m : List ℕ) → Succeeds Any (extend_chain e files old m)
  unfolding extend_chain extend_with
  extend_chain-Succeeds old m =
      >>=-Succeeds Any _ (ask-Succeeds _ _ λ t. let (c, done) = up.new-ok t in (c, done, tt)) λ c _.
        bracket-Succeeds _ context (
          >>=-Succeeds Any _ (ask-Succeeds _ _ λ t. let (d, done) = up.init-ok t c in (d, done, tt))
            λ d _.
              >>=-Succeeds Any _
                (ask-Succeeds _ _ λ t. let (x, done) = up.update-ok t d old in (x, done, tt))
                λ x _.
                  >>=-Succeeds Any _
                    (ask-Succeeds _ _ λ t. let (z, done) = up.update-ok t x m in (z, done, tt))
                    λ z _. finish-Succeeds z)

  print_hex-Succeeds : (label : String) (bs : List ℕ) → Succeeds Any (print_hex label bs)
  unfolding print_hex emit
  print_hex-Succeeds label bs = record { returns = λ w. (tt, refl, tt) }

  measure_all-Succeeds :
      (paths : List String) (chain : List ℕ)
      → AllReadable files paths
      → Succeeds Any (measure_all e files paths chain)
  unfolding measure_all
  measure_all-Succeeds [] chain h = pure-Succeeds _ chain tt
  measure_all-Succeeds (path ∷ rest) chain h =
      >>=-Succeeds Any _ (sha256_file-Succeeds path h.0) λ m _.
        >>=-Succeeds Any _ (print_hex-Succeeds _ m) λ _ _.
          >>=-Succeeds Any _ (extend_chain-Succeeds chain m) λ c _.
            >>=-Succeeds Any _ (print_hex-Succeeds _ c) λ _ _. measure_all-Succeeds rest c h.1

  run-Succeeds : (paths : List String) → AllReadable files paths → Succeeds Any (run e files paths)
  unfolding run
  run-Succeeds paths h = >>=-Succeeds Any _ (print_hex-Succeeds _ _) λ _ _.
      >>=-Succeeds Any _ (measure_all-Succeeds paths initial_chain h) λ c _. print_hex-Succeeds _ c

  -- With at least one component, all of them readable, and no call of the interface failing, `main` exits with 0.
  pub main-succeeds :
      (name path : String) (rest : List String) (w : Session)
      → AllReadable files (path ∷ rest)
      → (main e files (name ∷ path ∷ rest) w).0 ≡ 0
  unfolding main
  main-succeeds name path rest w h =
      let (a, done, _) = (run-Succeeds (path ∷ rest) h).returns w in rw (done, main) refl

module _ (e : Evp) (files : Files) where
  -- `fopen` fails on this path.
  abbrev pub IsMissing : String → Type 0
  IsMissing path = (t : ℕ) → (x : ℤ) × (files t path ≡ err x)

  sha256_file-Fails : (path : String) → IsMissing path → Fails (sha256_file e files path)
  unfolding sha256_file ask
  sha256_file-Fails path missing = first-Fails _ (record { error = λ w. missing w.tick })

  measure_all-Fails :
      (before : List String) (bad : String) (after : List String) (chain : List ℕ)
      → IsMissing bad
      → Fails (measure_all e files (before ++ bad ∷ after) chain)
  unfolding measure_all
  measure_all-Fails [] bad after chain missing = first-Fails _ (sha256_file-Fails bad missing)
  measure_all-Fails (path ∷ rest) bad after chain missing =
      let ih = λ (c : List ℕ). measure_all-Fails rest bad after c missing in
      rest-Fails _ λ m. rest-Fails _ λ _. rest-Fails _ λ c. rest-Fails _ λ _. ih c

  exit_of_Fails :
      (paths : List String)
      → Fails (run e files paths)
      → (name path : String) (rest : List String) → paths ≡ path ∷ rest
      → (w : Session) → (main e files (name ∷ path ∷ rest) w).0 ≡ 1
  unfolding main
  exit_of_Fails paths h name path rest q w =
      let (x, failed) = (subst (λ l. Fails (run e files l)) q h).error w in rw (failed, main) refl

  -- If a component cannot be opened, `main` exits with 1, whatever stands before and after it.
  pub main_missing :
      (name : String) (before : List String) (bad : String) (after : List String) (w : Session)
      → IsMissing bad
      → (main e files (name ∷ (before ++ bad ∷ after)) w).0 ≡ 1
  unfolding run
  main_missing name [] bad after w missing =
      exit_of_Fails (bad ∷ after)
        (rest-Fails _ λ _. first-Fails _ (measure_all-Fails [] bad after _ missing)) name bad after
        refl w
  main_missing name (path ∷ rest) bad after w missing =
      exit_of_Fails (path ∷ (rest ++ bad ∷ after))
        (rest-Fails _ λ _. first-Fails _ (measure_all-Fails (path ∷ rest) bad after _ missing)) name
        path (rest ++ bad ∷ after) refl w
