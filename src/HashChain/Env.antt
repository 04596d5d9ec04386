-- ===== src/HashChain/Env.antt =====
-- What code/examples/security/hash_chain_minimal/hash_chain_minimal.c runs on: the C library's
-- streams, OpenSSL's EVP interface as a parameter, and the state that a run changes.
use Prim.Native.String.{String}
use embedded_linux_bsp.Common.{ℕ, ◌≡◌, refl, Bool, true, false, List, [], ◌++◌}
use embedded_linux_bsp.Common.World.{Result, ok, World, Run}
use embedded_linux_bsp.Common.Ledger.{Resource}

-- A stream opened by `fopen(path, "rb")`: the bytes that `fread` delivers, and whether it then
-- stops by an error (`ferror`) and not at the end of the file.
pub record Stream : Type 0 where
  pub bytes : List ℕ
  pub failed : Bool

-- The files, at each moment of the run.
abbrev pub Files : Type 0
Files = ℕ → String → Result Stream

-- OpenSSL's digest interface: not part of this repository. Each call may answer differently at each
-- moment; `err` stands for a null pointer, or for an answer other than 1.
pub record Evp : Type 1 where
  pub Ctx : Type 0
  pub ctx_new : ℕ → Result Ctx
  pub digest_init : ℕ → Ctx → Result Ctx
  pub digest_update : ℕ → Ctx → List ℕ → Result Ctx
  pub digest_final : ℕ → Ctx → Result (List ℕ × ℕ)

-- What OpenSSL documents of a SHA-256 context: it collects the bytes of the updates, and the final
-- call writes the digest of those, of 32 bytes.
pub record EvpLaws (e : Evp) (hash : List ℕ → List ℕ) : Type 0 where
  pub absorbed : e.Ctx → List ℕ
  pub init-absorbed : (t : ℕ) (c d : e.Ctx) → e.digest_init t c ≡ ok d → absorbed d ≡ []
  pub update-absorbed :
      (t : ℕ) (c : e.Ctx) (bs : List ℕ) (d : e.Ctx)
      → e.digest_update t c bs ≡ ok d
      → absorbed d ≡ absorbed c ++ bs
  pub final-digest :
      (t : ℕ) (c : e.Ctx) (out : List ℕ) (n : ℕ)
      → e.digest_final t c ≡ ok (out, n)
      → out ≡ hash (absorbed c)

-- No call of the interface fails.
pub record Available (e : Evp) : Type 0 where
  pub new-ok : (t : ℕ) → (c : e.Ctx) × (e.ctx_new t ≡ ok c)
  pub init-ok : (t : ℕ) (c : e.Ctx) → (d : e.Ctx) × (e.digest_init t c ≡ ok d)
  pub update-ok : (t : ℕ) (c : e.Ctx) (bs : List ℕ) → (d : e.Ctx) × (e.digest_update t c bs ≡ ok d)
  pub final-ok : (t : ℕ) (c : e.Ctx) → (out : List ℕ) × (e.digest_final t c ≡ ok (out, 32))

-- The two pointers that the code must give back.
pub data Handle : Type 0 where
  file : Handle
  context : Handle

abbrev pub same_handle : Handle → Handle → Bool
same_handle file file = true
same_handle file context = false
same_handle context file = false
same_handle context context = true

pub same_handle_refl : (h : Handle) → same_handle h h ≡ true
same_handle_refl file = refl
same_handle_refl context = refl

instance abbrev pub handle_resource : Resource Handle
handle_resource = record { same = same_handle; same_refl = same_handle_refl }

-- One line of `print_hex`.
pub record Line : Type 0 where
  pub label : String
  pub text : List ℕ

abbrev pub Session : Type 0
Session = World Handle Line

abbrev pub Action : Type 0 → Type 0
Action = Run Handle Line
