-- ===== src/Driver/WaitQueue/Tests.antt =====
-- One writer, 0, and two readers, 1 and 2.
use embedded_linux_bsp.Common.{
  ◌⊎◌, ◌<◌, min, ℕ, ◌≡◌, refl, ◌==◌, if◌then◌else◌, List, [], ◌∷◌, ◌++◌, take, length-replicate,
  arith,
}
use embedded_linux_bsp.Driver.Samples.{honest, honest_laws}
use embedded_linux_bsp.Driver.WaitQueue.{
  idle, waiting, asleep, waking, roused, call_write, System, start, read_done, wrote, Move,
  call_read, go, move, turn, call, run,
}
use embedded_linux_bsp.Driver.WaitQueue.Causes.{IsServed, run-IsServed}
use embedded_linux_bsp.Driver.WaitQueue.Latest.{latest, four_turns}
use embedded_linux_bsp.Driver.WaitQueue.Sleepers.{asleep-run}
use embedded_linux_bsp.Driver.WaitQueue.Sequences.{
  whole_write, whole_read, both_reads, write-read, woken_twice,
}

abbrev hi : List ℕ
hi = 104 ∷ 105 ∷ 10 ∷ []

abbrev two_readers : List (ℕ × Move)
two_readers = (1, call_read 8) ∷ (2, call_read 8) ∷ whole_write 0 hi 3 ++ both_reads 1 2

run-IsServed_example : IsServed (run honest two_readers start)
run-IsServed_example = run-IsServed honest honest_laws two_readers

write-read_example :
    let after = run honest (whole_write 0 hi 3 ++ whole_read 1 2) start in
    (after.shared.data_available ≡ 0) × (after.log ≡ read_done 2 2 (take 2 hi) ∷ wrote 3 ∷ [])
write-read_example =
    write-read honest honest_laws 0 1 start hi 3 2 (omega arith) refl refl
      (length-replicate {0} {A = ℕ} 128 0) (omega arith) (omega arith) refl refl

-- Both readers wait, and three bytes are there.
abbrev both_wait : System
both_wait = record {
  shared = record { buffer = hi; data_available = 3 };
  procs = λ q. if q == 0 then idle else waiting 8;
  log = wrote 3 ∷ [];
}

woken_twice_example :
    (run honest (both_reads 1 2) both_wait).log ≡ read_done 8 0 [] ∷ read_done 8 3 hi ∷ wrote 3 ∷ []
woken_twice_example =
    woken_twice honest honest_laws 1 2 both_wait 8 8 (omega arith) refl refl (omega arith) refl

-- The reader 1 sleeps, and the writer 0 has written but not yet called `wake_up`.
abbrev written : List (ℕ × Move)
written = (1, call_read 2) ∷ (1, go) ∷ (0, call_write hi 3) ∷ (0, go) ∷ (0, go) ∷ []

reader_sleeps : (run honest written start).procs 1 ≡ asleep 2
unfolding run move turn call roused
reader_sleeps = refl

copied :
    let s = run honest written start in
    (honest.copy_to_user s.shared.buffer (min 2 (latest s.log))).1 ≡ 0
unfolding run move turn call roused
copied = refl

asleep-run_example :
    let s = run honest written start in
    let n = min 2 (latest s.log) in
    (latest s.log ≡ 0)
    ⊎ ((0 < latest s.log)
        × (p : ℕ) × (s.procs p ≡ waking)
        × let after = run honest ((p, go) ∷ four_turns 1) s in
          (after.log ≡ read_done 2 n (honest.copy_to_user s.shared.buffer n).0 ∷ s.log)
          × (after.shared.data_available ≡ 0))
asleep-run_example = asleep-run honest written 1 2 reader_sleeps copied
