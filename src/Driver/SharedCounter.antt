-- ===== src/Driver/SharedCounter.antt =====
-- code/examples/synchronization/mutex/mutex_example.c: a counter that processes read and add to under
-- a mutex. code/examples/synchronization/spinlock/spinlock_example.c has the same functions under a
-- spinlock (SpinCounter).
pub mod Text
pub mod Interleaving
pub mod Linear
pub mod Total
mod Tests
use embedded_linux_bsp.Common.{
  ℕ, ◌+◌, ◌-◌, ◌%◌, ◌^◌, ◌≤◌, ◌<◌, ◌≡◌, true, false, Bool, ◌==◌, ◌||◌, ltb, leb, List, [], length,
  take, ℤ, pos, negsuc, if◌then◌else◌, arith,
}
use embedded_linux_bsp.Common.World.{Result, ok, err}
use embedded_linux_bsp.Driver.MiscDevice
use embedded_linux_bsp.Driver.User.{efault, einval, UserCopy}

-- An `int` is its 32-bit pattern; this is the number that the pattern stands for.
abbrev pub signed32 : ℕ → ℤ
signed32 w = if ltb w (2 ^ 31) then pos w else negsuc (2 ^ 32 - w - 1)

-- the `int` that is left of a `long`
pub word_of : ℤ → ℕ
word_of (pos n) = n % 2 ^ 32
word_of (negsuc n) = 2 ^ 32 - 1 - n % 2 ^ 32

-- `shared_counter += delta`
pub add_delta : ℕ → ℤ → ℕ
unfolding word_of
add_delta counter delta = (counter + word_of delta) % 2 ^ 32

-- The kernel's `scnprintf` of an `int` by "%d\n", without the terminator, and `kstrtol` to the base 10
-- of so many bytes: parameters.
pub record Numerals : Type 0 where
  pub scnprintf : ℕ → List ℕ
  pub kstrtol : List ℕ → Result ℤ

-- What the kernel documents of them: a number that was printed is read, and its text is short.
pub record IsNumerals (t : Numerals) : Type 0 where
  pub reads : (w : ℕ) → w < 2 ^ 32 → t.kstrtol (t.scnprintf w) ≡ ok (signed32 w)
  pub short : (w : ℕ) → length (t.scnprintf w) ≤ 12
  pub some_text : (w : ℕ) → 0 < length (t.scnprintf w)

abbrev pub tmp_len : ℕ
tmp_len = 32

module _ (u : UserCopy) (t : Numerals) where
  -- `my_read`, after the unlock: what reaches the process, the return value, and `*ppos`
  pub finish_read : (value count ppos : ℕ) → List ℕ × ℤ × ℕ
  finish_read value count ppos =
      let text = t.scnprintf value in
      let len = length text in
      let (delivered, left) = u.copy_to_user text len in
      if ltb count len
      then ([], einval, ppos)
      else (if ltb 0 left then (delivered, efault, ppos) else (delivered, pos len, ppos + len))

  pub my_read : (shared_counter count ppos : ℕ) → List ℕ × ℤ × ℕ
  unfolding finish_read
  my_read shared_counter count ppos =
      if ppos == 0 then finish_read shared_counter count ppos else ([], pos 0, ppos)

  -- `my_write`, before the lock; `tmp` is what the stack held
  pub parse_delta : (tmp from : List ℕ) (count : ℕ) → Result ℤ
  parse_delta tmp from count =
      let (filled, left) = u.copy_from_user tmp from count in
      if count == 0 || leb tmp_len count
      then err einval
      else (if ltb 0 left then err efault else t.kstrtol (take count filled))

  -- the counter after the call, and the return value
  pub my_write : (tmp : List ℕ) (shared_counter : ℕ) (from : List ℕ) (count : ℕ) → ℕ × ℤ
  my_write tmp shared_counter from count = elim (parse_delta tmp from count) [
    | err e ↦ (shared_counter, e)
    | ok delta ↦ (add_delta shared_counter delta, pos count)
  ]

-- `shared_counter` after `my_init`
abbrev pub initial_counter : ℕ
initial_counter = 0

-- the rest of `my_init`, and `my_exit`, are the misc device's
abbrev pub my_init : (misc_register : ℕ → Result (Unit {0})) → MiscDevice.Action (Unit {0})
my_init = MiscDevice.my_init

abbrev pub my_exit : MiscDevice.Action (Unit {0})
my_exit = MiscDevice.my_exit
