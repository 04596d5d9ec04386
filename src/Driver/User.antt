-- ===== src/Driver/User.antt =====
-- Copies between a driver and the memory of a process, and the error numbers of the kernel.
use embedded_linux_bsp.Common.{ℕ, ◌+◌, ◌≤◌, ◌≡◌, ℤ, minus, List, ◌++◌, length, take, drop}

abbrev pub enomem : ℤ
enomem = minus 12

abbrev pub efault : ℤ
efault = minus 14

abbrev pub einval : ℤ
einval = minus 22

abbrev pub eagain : ℤ
eagain = minus 11

-- `copy_from_user(to, from, n)` of the kernel gives the new contents of `to`, and how many bytes it
-- left uncopied; `copy_to_user(from, n)` what reached the process, and how many bytes did not.
pub record UserCopy : Type 0 where
  pub copy_from_user : (to from : List ℕ) (n : ℕ) → List ℕ × ℕ
  pub copy_to_user : (from : List ℕ) (n : ℕ) → List ℕ × ℕ

-- What the kernel documents of them: nothing beyond the destination is written, a copy that leaves
-- nothing uncopied has copied the first `n` bytes, and what is left and what arrived add up.
pub record IsUserCopy (u : UserCopy) : Type 0 where
  pub keeps_length :
      (to from : List ℕ) (n : ℕ) → n ≤ length to → length (u.copy_from_user to from n).0 ≡ length to
  pub copies_from :
      (to from : List ℕ) (n : ℕ)
      → n ≤ length to
      → n ≤ length from
      → (u.copy_from_user to from n).1 ≡ 0
      → (u.copy_from_user to from n).0 ≡ take n from ++ drop n to
  pub adds_up :
      (from : List ℕ) (n : ℕ)
      → n ≤ length from
      → length (u.copy_to_user from n).0 + (u.copy_to_user from n).1 ≡ n
  pub copies_to :
      (from : List ℕ) (n : ℕ)
      → n ≤ length from
      → (u.copy_to_user from n).1 ≡ 0
      → (u.copy_to_user from n).0 ≡ take n from
