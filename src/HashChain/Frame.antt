-- ===== src/HashChain/Frame.antt =====
-- What the hash functions of hash_chain_minimal.c acquire and give back.
use Prim.Native.String.{String}
use embedded_linux_bsp.Common.{ℕ, zero, suc, ◌≡◌, refl, List, [], ◌∷◌}
use embedded_linux_bsp.Common.World.Balance.{
  IsBalanced, >>=-IsBalanced, ask-IsBalanced, fail-IsBalanced, pure-IsBalanced, balance,
}
use embedded_linux_bsp.HashChain.Env.{Files, Evp, Session, Stream}
use embedded_linux_bsp.HashChain.{
  absorb_file, finish, digest_stream, sha256_file, extend_chain, extend_with, measure_all,
  print_hex, run, main,
}

module _ (e : Evp) (files : Files) where
  open e use {Ctx}

  absorb_file-IsBalanced :
      (fuel : ℕ) (c : Ctx) (bs : List ℕ) → IsBalanced (absorb_file e files fuel c bs)
  unfolding absorb_file
  absorb_file-IsBalanced zero c bs = fail-IsBalanced _
  absorb_file-IsBalanced (suc fuel) c [] = pure-IsBalanced c
  absorb_file-IsBalanced (suc fuel) c (b ∷ bs) =
      >>=-IsBalanced (ask-IsBalanced _) (λ c'. absorb_file-IsBalanced fuel c' _)

  finish-IsBalanced : (c : Ctx) → IsBalanced (finish e files c)
  unfolding finish
  finish-IsBalanced c = search balance

  digest_stream-IsBalanced : (s : Stream) (c : Ctx) → IsBalanced (digest_stream e files s c)
  unfolding digest_stream
  digest_stream-IsBalanced s c = search (balance, absorb_file-IsBalanced, finish-IsBalanced)

  extend_with-IsBalanced : (old m : List ℕ) (c : Ctx) → IsBalanced (extend_with e files old m c)
  unfolding extend_with
  extend_with-IsBalanced old m c = search (balance, finish-IsBalanced)

  -- Whatever fails, `sha256_file` ends with the stream closed and the context freed, each once.
  pub sha256_file-IsBalanced : (path : String) → IsBalanced (sha256_file e files path)
  unfolding sha256_file
  sha256_file-IsBalanced path = search (balance, digest_stream-IsBalanced)

  pub extend_chain-IsBalanced : (old m : List ℕ) → IsBalanced (extend_chain e files old m)
  unfolding extend_chain
  extend_chain-IsBalanced old m = search (balance, extend_with-IsBalanced)

  print_hex-IsBalanced : (label : String) (bs : List ℕ) → IsBalanced (print_hex label bs)
  unfolding print_hex
  print_hex-IsBalanced label bs = search balance

  measure_all-IsBalanced :
      (paths : List String) (chain : List ℕ) → IsBalanced (measure_all e files paths chain)
  unfolding measure_all
  measure_all-IsBalanced [] chain = pure-IsBalanced chain
  measure_all-IsBalanced (path ∷ rest) chain = >>=-IsBalanced (sha256_file-IsBalanced path) λ m.
      >>=-IsBalanced (print_hex-IsBalanced _ m) λ _.
        >>=-IsBalanced (extend_chain-IsBalanced chain m)
          λ c. >>=-IsBalanced (print_hex-IsBalanced _ c) λ _. measure_all-IsBalanced rest c

  run-IsBalanced : (paths : List String) → IsBalanced (run e files paths)
  unfolding run
  run-IsBalanced paths = search (balance, measure_all-IsBalanced, print_hex-IsBalanced)

  -- Whatever the arguments, the files and OpenSSL answer, `main` ends holding what it held at its start:
  -- every file and every digest context that it took is given back, on the error returns too.
  pub main-balanced : (argv : List String) (w : Session) → (main e files argv w).1.ledger ≡ w.ledger
  unfolding main
  main-balanced [] w = refl
  main-balanced (name ∷ []) w = refl
  main-balanced (name ∷ path ∷ rest) w = (run-IsBalanced (path ∷ rest)).held w
