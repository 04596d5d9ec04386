-- ===== src/Driver/SharedCounter/Tests.antt =====
-- The counter with numbers written as four bytes in the place of the kernel's decimal digits.
use embedded_linux_bsp.Common.{
  ℕ, ◌+◌, ◌*◌, ◌/◌, ◌%◌, ◌^◌, ◌≤◌, ◌<◌, ◌≡◌, refl, ap, List, [], ◌∷◌, take, ℤ, pos, some, ◌⊎◌,
  arith, replicate,
}
use embedded_linux_bsp.Common.World.{Result, ok, err}
use embedded_linux_bsp.Driver.User.{efault, einval}
use embedded_linux_bsp.Driver.Samples.{honest}
use embedded_linux_bsp.Driver.SharedCounter.{signed32, add_delta, Numerals, IsNumerals, my_write}
use embedded_linux_bsp.Driver.SharedCounter.Text.{my_write_cases}
use embedded_linux_bsp.Driver.SharedCounter.Interleaving.{
  wants_value, wants_add, adding, loaded, stored, System, start, update, added, call_read,
  call_write, lock_write, load, store, Reach, here, next,
}
use embedded_linux_bsp.Driver.SharedCounter.Total.{total, Reach-total}
use embedded_linux_bsp.Driver.SharedCounter.Linear.{IsLinear, Reach-IsLinear}

abbrev read_bytes : List ℕ → Result ℤ
read_bytes (a ∷ b ∷ c ∷ d ∷ []) = ok (signed32 (a * 2 ^ 24 + b * 2 ^ 16 + c * 2 ^ 8 + d))
read_bytes _ = err einval

abbrev bytes : Numerals
bytes = record {
  scnprintf = λ w. (w / 2 ^ 24) ∷ (w / 2 ^ 16 % 256) ∷ (w / 2 ^ 8 % 256) ∷ (w % 256) ∷ [];
  kstrtol = read_bytes;
}

bytes-IsNumerals : IsNumerals bytes
bytes-IsNumerals = record {
  reads = λ w h. ap (λ v. ok (signed32 v)) (omega arith);
  short = λ w. omega arith;
  some_text = λ w. omega arith;
}

abbrev one : ℕ
one = 1

abbrev stack : List ℕ
stack = replicate 32 0

my_write_cases_example :
    let (after, ret) = my_write honest bytes stack 5 (1 ∷ []) 1 in
    let copied = honest.copy_from_user stack (1 ∷ []) 1 in
    ((after ≡ 5) × ((ret ≡ einval) × ((one ≡ 0) ⊎ (32 ≤ one))))
    ⊎ (((0 < one) × (one < 32))
        × (((after ≡ 5) × ((ret ≡ efault) × (0 < copied.1)))
            ⊎ ((copied.1 ≡ 0)
                × (((after ≡ 5) × (bytes.kstrtol (take 1 copied.0) ≡ err ret))
                    ⊎ ((ret ≡ pos 1)
                        × ((delta : ℤ) × (bytes.kstrtol (take 1 copied.0) ≡ ok delta)
                            × (after ≡ add_delta 5 delta)))))))
my_write_cases_example = my_write_cases honest bytes stack (1 ∷ []) 5 1

-- Process 1 stores 5 more, while process 2 waits to read.
abbrev called : System
called = record start { procs = update start.procs 1 (wants_add (pos 5)) }

abbrev waiting : System
waiting = record called { procs = update called.procs 2 wants_value }

abbrev locked : System
locked = record waiting { counter_lock = some 1; procs = update waiting.procs 1 (adding (pos 5)) }

abbrev half_way : System
half_way = record locked { procs = update locked.procs 1 (loaded (pos 5) 0) }

abbrev written : System
written = record half_way {
  shared_counter = add_delta 0 (pos 5);
  procs = update half_way.procs 1 stored;
  log = added (pos 5) ∷ [];
}

race : Reach start written
race =
    next
      (next
        (next (next (next here (call_write start 1 (pos 5) refl)) (call_read called 2 refl))
          (lock_write waiting 1 (pos 5) refl refl))
        (load locked 1 (pos 5) refl))
      (store half_way 1 (pos 5) 0 refl)

Reach-IsLinear_example : IsLinear written
Reach-IsLinear_example = Reach-IsLinear race

Reach-total_example : written.shared_counter ≡ total written.log
Reach-total_example = Reach-total race
