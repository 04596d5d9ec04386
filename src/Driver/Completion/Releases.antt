-- ===== src/Driver/Completion/Releases.antt =====
-- How often a read is let go on.
use embedded_linux_bsp.Common.{ℕ, ◌+◌, ◌≤◌, ◌==◌, ◌&&◌, Bool-cases, inl, inr, List, [], ◌∷◌, arith}
use embedded_linux_bsp.Driver.Completion.{
  At, idle, waiting, released, restarting, scheduling, System, start, turn, work_func, Move,
  call_read, call_write, go, begin_work, run_work, call, after_turn, move, run,
}

-- Each read that went on has used a completion of its own, and each completion a call of `schedule_delayed_work` of its own.
pub record IsPaid (s : System) : Type 0 where
  pub by_work : s.reads + s.done ≤ s.completed
  pub by_write : s.completed + s.running + s.due ≤ s.scheduled

turn-IsPaid : (s : System) (q : ℕ) (x : At) → IsPaid s → IsPaid (after_turn s (turn s q x))
unfolding turn
turn-IsPaid s q idle h = h
turn-IsPaid s q waiting h = elim (Bool-cases (s.done == 0)) [
  | inl e ↦ rw e h
  | inr e ↦ rw e (record { by_work = ground (arith, e, h.by_work); by_write = h.by_write })
]
turn-IsPaid s q released h = record { by_work = h.by_work; by_write = h.by_write }
turn-IsPaid s q restarting h = record { by_work = omega (arith, h.by_work); by_write = h.by_write }
turn-IsPaid s q scheduling h = record { by_work = h.by_work; by_write = omega (arith, h.by_write) }

call-IsPaid : (s : System) (q : ℕ) (x y : At) → IsPaid s → IsPaid (call s q x y)
unfolding call
call-IsPaid s q idle y h = record { by_work = h.by_work; by_write = h.by_write }
call-IsPaid s q waiting y h = h
call-IsPaid s q released y h = h
call-IsPaid s q restarting y h = h
call-IsPaid s q scheduling y h = h

move-IsPaid : (s : System) (m : Move) → IsPaid s → IsPaid (move s m)
unfolding move work_func
move-IsPaid s (call_read q) h = call-IsPaid s q (s.procs q) waiting h
move-IsPaid s (call_write q) h = call-IsPaid s q (s.procs q) restarting h
move-IsPaid s (go q) h = turn-IsPaid s q (s.procs q) h
move-IsPaid s begin_work h = elim (Bool-cases (s.due == 1 && s.running == 0)) [
  | inl e ↦ rw e (record { by_work = h.by_work; by_write = ground (arith, e, h.by_write) })
  | inr e ↦ rw e h
]
move-IsPaid s run_work h = elim (Bool-cases (s.running == 1)) [
  | inl e ↦
      rw e
        (record { by_work = ground (arith, h.by_work); by_write = ground (arith, e, h.by_write) })
  | inr e ↦ rw e h
]

run-kept : (s : System) (ms : List Move) → IsPaid s → IsPaid (run s ms)
unfolding run
run-kept s [] h = h
run-kept s (m ∷ ms) h = run-kept (move s m) ms (move-IsPaid s m h)

-- From the start, after any moves of any processes and of the work: no more reads have gone on after the wait than the
-- work has run, and it has not run more often than writes have scheduled it.
pub run-IsPaid : (ms : List Move) → IsPaid (run start ms)
run-IsPaid ms = run-kept start ms (record { by_work = omega arith; by_write = omega arith })
