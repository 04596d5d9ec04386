-- ===== src/Driver/Completion/Tests.antt =====
-- Two readers and a writer: one of the readers goes on.
use embedded_linux_bsp.Common.{◌≡◌, ◌⊎◌, ◌<◌, ◌+◌, refl, List, [], ◌∷◌}
use embedded_linux_bsp.Driver.Completion.{
  waiting, released, start, turn, work_func, call_read, call_write, go, begin_work, run_work, Move,
  call, move, run,
}
use embedded_linux_bsp.Driver.Completion.Progress.{outstanding, work_and_go, waiting-work_and_go}
use embedded_linux_bsp.Driver.Completion.Releases.{IsPaid, run-IsPaid}

abbrev two_readers : List Move
two_readers =
    call_read 1
    ∷ call_read 2
    ∷ call_write 0
    ∷ go 0
    ∷ go 0
    ∷ begin_work
    ∷ run_work
    ∷ go 1
    ∷ go 2
    ∷ go 1
    ∷ []

one_goes_on : (run start two_readers).reads ≡ 1
unfolding run move turn call work_func
one_goes_on = refl

run-IsPaid_example : IsPaid (run start two_readers)
run-IsPaid_example = run-IsPaid two_readers

-- The reader 1 waits, and the writer has scheduled the work.
abbrev scheduled : List Move
scheduled = call_read 1 ∷ call_write 0 ∷ go 0 ∷ go 0 ∷ []

reader_waits : (run start scheduled).procs 1 ≡ waiting
unfolding run move turn call
reader_waits = refl

waiting-work_and_go_example :
    let s = run start scheduled in
    let after = run s (work_and_go 1) in
    ((outstanding s ≡ 0) × (after ≡ s))
    ⊎ ((0 < outstanding s) × (after.procs 1 ≡ released) × (after.reads ≡ s.reads + 1))
waiting-work_and_go_example = waiting-work_and_go scheduled 1 reader_waits
