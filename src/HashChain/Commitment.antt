-- ===== src/HashChain/Commitment.antt =====
-- What the final line of hash_chain_minimal.c says of the files that were measured.
use Prim.Native.String.{String}
use mathlib.Core.List.{foldl, reverse, reverse-append}
use embedded_linux_bsp.Common.{
  ℕ, ◌<◌, ◌≡◌, sym, ◌∙◌, ap, ◌⊎◌, List, [], ◌∷◌, ◌++◌, All, length, map, arith,
}
use embedded_linux_bsp.Common.World.{ok}
use embedded_linux_bsp.HashChain.Env.{Files, Evp, EvpLaws, Session, Stream, Line}
use embedded_linux_bsp.HashChain.{main, initial_chain}
use embedded_linux_bsp.HashChain.Digest.{extend, chain_of, main-digest}
use embedded_linux_bsp.HashChain.Collision.{Collision, ZeroPreimage, chain_of-commits}
use embedded_linux_bsp.HashChain.Hex.{unhex, unhex-hex}

last-injective : {A : Type 0} (a b : List A) (x y : A) → a ++ x ∷ [] ≡ b ++ y ∷ [] → x ≡ y
last-injective a b x y e =
    let q : x ∷ reverse a ≡ y ∷ reverse b =
      sym (reverse-append a (x ∷ [])) ∙ ap reverse e ∙ reverse-append b (y ∷ []) in
    cc (q)

-- What the digests of the files are, as the program measures them.
abbrev pub measured : (List ℕ → List ℕ) → (String → List ℕ) → List String → List (List ℕ)
measured hash contents = map (λ path. hash (contents path))

-- A digest is 32 bytes.
pub record IsDigest (hash : List ℕ → List ℕ) : Type 0 where
  pub size : (x : List ℕ) → length (hash x) ≡ 32
  pub bytes : (x : List ℕ) → All (λ b. b < 256) (hash x)

-- A system that the program is run on: its files do not change.
pub record IsStable (files : Files) (contents : String → List ℕ) : Type 0 where
  pub held : (path : String) (t : ℕ) (s : Stream) → files t path ≡ ok s → s.bytes ≡ contents path

module _ (hash : List ℕ → List ℕ) (digest : IsDigest hash) where
  bytes-initial : All (λ b. b < 256) initial_chain
  unfolding initial_chain
  bytes-initial = omega arith

  bytes-foldl :
      (ms : List (List ℕ)) (c : List ℕ)
      → All (λ b. b < 256) c
      → All (λ b. b < 256) (foldl (extend hash) c ms)
  bytes-foldl [] c h = h
  bytes-foldl (m ∷ ms) c h = bytes-foldl ms (extend hash c m) (digest.bytes (c ++ m))

  module _ (e : Evp) (laws : EvpLaws e hash) where
    -- Let `hash` give 32 bytes for every input, and the digest interface compute it as its laws say. If two
    -- runs, each on files that do not change, exit with 0 and print the same last line, then the digests
    -- of the files that they measured agree, in number and order, or two different inputs, one hashed by each
    -- chain, have one digest, or an input hashed by one of them has 32 zero bytes as its digest.
    pub main-commits :
        (files₁ files₂ : Files) (contents₁ contents₂ : String → List ℕ)
        → IsStable files₁ contents₁
        → IsStable files₂ contents₂
        → (name₁ name₂ : String) (paths₁ paths₂ : List String) (w₁ w₂ : Session)
        → (main e files₁ (name₁ ∷ paths₁) w₁).0 ≡ 0
        → (main e files₂ (name₂ ∷ paths₂) w₂).0 ≡ 0
        → (before₁ before₂ : List Line) (line : Line)
        → (main e files₁ (name₁ ∷ paths₁) w₁).1.out ≡ before₁ ++ line ∷ []
        → (main e files₂ (name₂ ∷ paths₂) w₂).1.out ≡ before₂ ++ line ∷ []
        → let ms = measured hash contents₁ paths₁ in
          let ns = measured hash contents₂ paths₂ in
          (ms ≡ ns) ⊎ (Collision hash ms ns ⊎ (ZeroPreimage hash ms ⊎ ZeroPreimage hash ns))
    main-commits files₁ files₂ contents₁ contents₂ s₁ s₂ name₁ name₂ paths₁ paths₂ w₁ w₂ done₁ done₂
          b₁ b₂ line last₁ last₂ =
        let ms = measured hash contents₁ paths₁ in
        let ns = measured hash contents₂ paths₂ in
        let (a₁, out₁) = main-digest e files₁ hash laws contents₁ s₁.held name₁ paths₁ w₁ done₁ in
        let (a₂, out₂) = main-digest e files₂ hash laws contents₂ s₂.held name₂ paths₂ w₂ done₂ in
        let lines =
          last-injective a₁ b₁ _ line (sym out₁ ∙ last₁)
          ∙ sym (last-injective a₂ b₂ _ line (sym out₂ ∙ last₂)) in
        chain_of-commits hash digest.size ms ns (
          sym (unhex-hex (chain_of hash ms) (bytes-foldl ms initial_chain bytes-initial))
          ∙ ap (λ l. unhex l.text) lines
          ∙ unhex-hex (chain_of hash ns) (bytes-foldl ns initial_chain bytes-initial))
