-- ===== src/HashChain.antt =====
-- code/examples/security/hash_chain_minimal/hash_chain_minimal.c, function by function.
pub mod Env
pub mod Frame
pub mod Digest
pub mod Complete
pub mod Collision
pub mod Hex
pub mod Commitment
mod Tests
use Prim.Native.String.{String}
use embedded_linux_bsp.Common.{
  ℕ, zero, suc, ◌+◌, ◌-◌, ◌/◌, ◌%◌, List, [], ◌∷◌, length, take, drop, replicate, ltb, ◌==◌,
  if◌then◌else◌, negsuc,
}
use embedded_linux_bsp.Common.World.{ok, err, pure, fail, ◌>>=◌, ◌>>◌, ask, emit, bracket}
use Env.{Stream, Files, Evp, Session, Action, file, context, handle_resource}

abbrev pub sha256_len : ℕ
sha256_len = 32

abbrev pub read_chunk : ℕ
read_chunk = 4096

-- `chain` as `main` declares it
pub initial_chain : List ℕ
initial_chain = replicate sha256_len 0

-- `%x` of a number below 16
pub hex_digit : ℕ → ℕ
hex_digit d = if ltb d 10 then b'0' + d else b'a' + (d - 10)

-- the loop of `print_hex`: `%02x` for each byte
pub hex : List ℕ → List ℕ
unfolding hex_digit
hex [] = []
hex (b ∷ bs) = hex_digit (b / 16) ∷ hex_digit (b % 16) ∷ hex bs

unfoldable pub print_hex : String → List ℕ → Action (Unit {0})
print_hex label buf = emit (record { label = label; text = hex buf })

-- the return value -1
abbrev pub minus_one : {A : Type 0} → Action A
minus_one = fail (negsuc 0)

module _ (e : Evp) (files : Files) where
  open e use {Ctx, ctx_new, digest_init, digest_update, digest_final}

  -- `fread` and `EVP_DigestUpdate` in turn; the fuel is a bound on the rounds.
  pub absorb_file : ℕ → Ctx → List ℕ → Action Ctx
  absorb_file zero c unread = minus_one
  absorb_file (suc fuel) c [] = pure c
  absorb_file (suc fuel) c (b ∷ bs) = do
    c' ← ask (λ t. digest_update t c (take read_chunk (b ∷ bs)))
    absorb_file fuel c' (drop read_chunk (b ∷ bs))

  -- `EVP_DigestFinal_ex` and the test of the length
  finish : Ctx → Action (List ℕ)
  finish c = do
    final ← ask (λ t. digest_final t c)
    if final.1 == sha256_len then pure final.0 else minus_one

  digest_stream : Stream → Ctx → Action (List ℕ)
  digest_stream s c = do
    c₀ ← ask (λ t. digest_init t c)
    c₁ ← absorb_file (suc (length s.bytes)) c₀ s.bytes
    if s.failed then minus_one else finish c₁

  -- A failure stands for the return value -1, a result for 0 and the 32 bytes written to `out`.
  pub sha256_file : String → Action (List ℕ)
  sha256_file path = do
    s ← ask (λ t. files t path)
    bracket file (do c ← ask ctx_new; bracket context (digest_stream s c))

  extend_with : List ℕ → List ℕ → Ctx → Action (List ℕ)
  extend_with old_chain measurement c = do
    c₀ ← ask (λ t. digest_init t c)
    c₁ ← ask (λ t. digest_update t c₀ old_chain)
    c₂ ← ask (λ t. digest_update t c₁ measurement)
    finish c₂

  pub extend_chain : List ℕ → List ℕ → Action (List ℕ)
  extend_chain old_chain measurement = do
    c ← ask ctx_new
    bracket context (extend_with old_chain measurement c)

  -- the loop of `main` over the components; a failure is its `return 1`
  pub measure_all : List String → List ℕ → Action (List ℕ)
  measure_all [] chain = pure chain
  measure_all (path ∷ rest) chain = do
    measurement ← sha256_file path
    print_hex "  measurement: " measurement
    new_chain ← extend_chain chain measurement
    print_hex "  chain:       " new_chain
    measure_all rest new_chain

  run : List String → Action (Unit {0})
  run paths = do
    print_hex "initial chain: " initial_chain
    chain ← measure_all paths initial_chain
    print_hex "final chain digest: " chain

  -- the exit status; `argv` begins with the program's name
  pub main : List String → Session → ℕ × Session
  main [] w = (1, w)
  main (name ∷ []) w = (1, w)
  main (name ∷ path ∷ rest) w =
      let (done, w') = run (path ∷ rest) w in (elim done [ err _ ↦ 1 | ok _ ↦ 0 ], w')
