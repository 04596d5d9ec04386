-- ===== src/HashChain/Tests.antt =====
-- hash_chain_minimal.c run on two small files, with a toy digest in the place of SHA-256.
use Prim.Native.String.{String}
use text.Mathlib.Text.{◌==◌ as str_eq}
use embedded_linux_bsp.Common.{
  ℕ, ◌+◌, ◌%◌, ◌≡◌, refl, false, List, [], ◌∷◌, ◌++◌, replicate, length, arith, ◌⊎◌, if◌then◌else◌,
  negsuc,
}
use embedded_linux_bsp.Common.World.{ok, err, ◌>>=◌, ask, emit, bracket, pure, fail}
use embedded_linux_bsp.HashChain.Env.{Files, Evp, EvpLaws, Available, Stream, Session, Line}
use embedded_linux_bsp.HashChain.{
  hex, sha256_file, extend_chain, main, measure_all, run, print_hex, absorb_file, finish,
  digest_stream, extend_with,
}
use embedded_linux_bsp.HashChain.Digest.{chain_of, main-digest}
use embedded_linux_bsp.HashChain.Complete.{main-succeeds}
use embedded_linux_bsp.HashChain.Collision.{Collision, ZeroPreimage}
use embedded_linux_bsp.HashChain.Commitment.{IsDigest, IsStable, measured, main-commits}
use embedded_linux_bsp.HashChain.Hex.{unhex, unhex-hex}

abbrev sum : List ℕ → ℕ
sum [] = 0
sum (x ∷ xs) = x + sum xs

-- 32 bytes, from the length and the sum.
abbrev toy_hash : List ℕ → List ℕ
toy_hash x = length x % 256 ∷ sum x % 256 ∷ replicate 30 1

abbrev toy : Evp
toy = record {
  Ctx = List ℕ;
  ctx_new = λ t. ok [];
  digest_init = λ t c. ok [];
  digest_update = λ t c bs. ok (c ++ bs);
  digest_final = λ t c. ok (toy_hash c, 32);
}

toy_laws : EvpLaws toy toy_hash
toy_laws = record {
  absorbed = λ c. c;
  init-absorbed = λ t c d e. cc;
  update-absorbed = λ t c bs d e. cc;
  final-digest = λ t c out n e. cc;
}

toy_up : Available toy
toy_up = record {
  new-ok = λ t. ([], refl);
  init-ok = λ t c. ([], refl);
  update-ok = λ t c bs. (c ++ bs, refl);
  final-ok = λ t c. (toy_hash c, refl);
}

abbrev contents : String → List ℕ
contents path = if str_eq path "tfa.bin" then 1 ∷ 2 ∷ 3 ∷ [] else 9 ∷ []

-- Every path can be read.
abbrev disk : Files
disk t path = ok (record { bytes = contents path; failed = false })

-- No path can be opened.
abbrev no_disk : Files
no_disk t path = err (negsuc 1)

disk_stable : (path : String) (t : ℕ) (s : Stream) → disk t path ≡ ok s → s.bytes ≡ contents path
disk_stable path t s e = cc (e)

abbrev begin : Session
begin = record { tick = 0; ledger = record { live = []; faults = 0 }; out = [] }

main_runs : (main toy disk ("prog" ∷ "tfa.bin" ∷ "Image" ∷ []) begin).0 ≡ 0
unfolding main run measure_all print_hex sha256_file extend_chain absorb_file finish digest_stream
    extend_with ◌>>=◌ ask emit bracket pure fail
main_runs = refl

main_usage : (main toy disk ("prog" ∷ []) begin).0 ≡ 1
unfolding main
main_usage = refl

main-digest_example :
    (before : List Line) × ((main toy disk ("prog" ∷ "tfa.bin" ∷ "Image" ∷ []) begin).1.out
      ≡ before
        ++ record {
          label = "final chain digest: ";
          text = hex (chain_of toy_hash (toy_hash (1 ∷ 2 ∷ 3 ∷ []) ∷ toy_hash (9 ∷ []) ∷ []));
        }
          ∷ [])
main-digest_example =
    main-digest toy disk toy_hash toy_laws contents disk_stable "prog" ("tfa.bin" ∷ "Image" ∷ [])
      begin main_runs

main-succeeds_example : (main toy disk ("prog" ∷ "tfa.bin" ∷ "Image" ∷ []) begin).0 ≡ 0
main-succeeds_example =
    main-succeeds toy disk toy_up "prog" "tfa.bin" ("Image" ∷ []) begin
      ((λ t. (_, refl, refl)), ((λ t. (_, refl, refl)), tt))

toy-IsDigest : IsDigest toy_hash
toy-IsDigest = record { size = λ x. refl; bytes = λ x. omega arith }

disk-IsStable : IsStable disk contents
disk-IsStable = record { held = disk_stable }

abbrev two : List String
two = "tfa.bin" ∷ "Image" ∷ []

abbrev final_line : Line
final_line = record {
  label = "final chain digest: ";
  text = hex (chain_of toy_hash (measured toy_hash contents two));
}

main-commits_example :
    let ms = measured toy_hash contents two in
    (ms ≡ ms) ⊎ (Collision toy_hash ms ms ⊎ (ZeroPreimage toy_hash ms ⊎ ZeroPreimage toy_hash ms))
main-commits_example =
    main-commits toy_hash toy-IsDigest toy toy_laws disk disk contents contents disk-IsStable
      disk-IsStable "prog" "prog" two two begin begin main_runs main_runs
      (main-digest toy disk toy_hash toy_laws contents disk_stable "prog" two begin main_runs).0
      (main-digest toy disk toy_hash toy_laws contents disk_stable "prog" two begin main_runs).0
      final_line
      (main-digest toy disk toy_hash toy_laws contents disk_stable "prog" two begin main_runs).1
      (main-digest toy disk toy_hash toy_laws contents disk_stable "prog" two begin main_runs).1

unhex-hex_example : unhex (hex (0 ∷ 171 ∷ 255 ∷ [])) ≡ 0 ∷ 171 ∷ 255 ∷ []
unhex-hex_example = unhex-hex (0 ∷ 171 ∷ 255 ∷ []) (omega arith)
