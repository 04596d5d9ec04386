-- ===== src/Driver/Completion/Progress.antt =====
-- When a read goes on.
use embedded_linux_bsp.Common.{
  ℕ, ◌+◌, ◌≤◌, ◌<◌, ◌≡◌, refl, ap, ◌∙◌, ◌⊎◌, true, false, inl, inr, Bool-cases, ◌==◌, ==_refl, ◌&&◌,
  List, [], ◌∷◌, arith,
}
use embedded_linux_bsp.Driver.Completion.{
  At, idle, waiting, released, restarting, scheduling, System, start, turn, work_func, Move,
  call_read, call_write, go, begin_work, run_work, call, after_turn, move, run,
}

-- The work is due or not, and runs or not.
record IsBinary (s : System) : Type 0 where
  due : s.due ≤ 1
  running : s.running ≤ 1

call-IsBinary : (s : System) (q : ℕ) (x y : At) → IsBinary s → IsBinary (call s q x y)
unfolding call
call-IsBinary s q idle y h = record { due = h.due; running = h.running }
call-IsBinary s q waiting y h = h
call-IsBinary s q released y h = h
call-IsBinary s q restarting y h = h
call-IsBinary s q scheduling y h = h

turn-IsBinary : (s : System) (q : ℕ) (x : At) → IsBinary s → IsBinary (after_turn s (turn s q x))
unfolding turn
turn-IsBinary s q idle h = h
turn-IsBinary s q waiting h = elim (Bool-cases (s.done == 0)) [
  | inl e ↦ rw e h
  | inr e ↦ rw e (record { due = h.due; running = h.running })
]
turn-IsBinary s q released h = record { due = h.due; running = h.running }
turn-IsBinary s q restarting h = record { due = h.due; running = h.running }
turn-IsBinary s q scheduling h = record { due = omega arith; running = h.running }

move-IsBinary : (s : System) (m : Move) → IsBinary s → IsBinary (move s m)
unfolding move work_func
move-IsBinary s (call_read q) h = call-IsBinary s q (s.procs q) waiting h
move-IsBinary s (call_write q) h = call-IsBinary s q (s.procs q) restarting h
move-IsBinary s (go q) h = turn-IsBinary s q (s.procs q) h
move-IsBinary s begin_work h = elim (Bool-cases (s.due == 1 && s.running == 0)) [
  | inl e ↦ rw e (record { due = omega arith; running = omega arith })
  | inr e ↦ rw e h
]
move-IsBinary s run_work h = elim (Bool-cases (s.running == 1)) [
  | inl e ↦ rw e (record { due = h.due; running = omega arith })
  | inr e ↦ rw e h
]

run-IsBinary : (s : System) (ms : List Move) → IsBinary s → IsBinary (run s ms)
unfolding run
run-IsBinary s [] h = h
run-IsBinary s (m ∷ ms) h = run-IsBinary (move s m) ms (move-IsBinary s m h)

-- What a read can count on: completions, and a work that is due or runs.
abbrev pub outstanding : System → ℕ
outstanding s = s.done + s.due + s.running

-- The work has its time, and then the process a turn.
abbrev pub work_and_go : ℕ → List Move
work_and_go q = begin_work ∷ run_work ∷ go q ∷ []

-- what the work leaves
worked : System → System
worked s = move (move s begin_work) run_work

worked-procs : (s : System) → (worked s).procs ≡ s.procs
unfolding worked move work_func
worked-procs s = elim (Bool-cases (s.due == 1 && s.running == 0)) [
  | inl e ↦ rw e refl
  | inr e ↦ elim (Bool-cases (s.running == 1)) [
    | inl r ↦ rw (e, move, r) refl
    | inr r ↦ rw (e, move, r) refl
  ]
]

worked-reads : (s : System) → (worked s).reads ≡ s.reads
unfolding worked move work_func
worked-reads s = ground arith

worked-done : (s : System) → IsBinary s → 0 < outstanding s → 0 < (worked s).done
unfolding worked move work_func
worked-done s h some_left = ground (arith, h.due, h.running, some_left)

worked-nothing : (s : System) → outstanding s ≡ 0 → worked s ≡ s
unfolding worked move
worked-nothing s none_left =
    let due : (s.due == 1 && s.running == 0) ≡ false = ground (arith, none_left) in
    let running : (s.running == 1) ≡ false = ground (arith, none_left) in
    rw (due, move, running) refl

-- One turn of a process that waits.
go-nothing : (s : System) (q : ℕ) → s.procs q ≡ waiting → s.done ≡ 0 → move s (go q) ≡ s
unfolding move turn
go-nothing s q here none_left =
    let e : (s.done == 0) ≡ true = ground (arith, none_left) in rw (here, turn, e) refl

go-released :
    (s : System) (q : ℕ)
    → s.procs q ≡ waiting
    → 0 < s.done
    → ((move s (go q)).procs q ≡ released) × ((move s (go q)).reads ≡ s.reads + 1)
unfolding move turn
go-released s q here some_left =
    let e : (s.done == 0) ≡ false = ground (arith, some_left) in
    (rw (here, turn, e) (rw (==_refl q) refl), rw (here, turn, e) refl)

-- Start the driver, let the processes and the work make any moves, and look at a read that waits. If a completion is
-- left, or the work is due or runs, then once the work has had its time and its run, and the process a turn, the read has gone
-- on. If none of these is so, the three change nothing: the read waits for a write that schedules the work.
pub waiting-work_and_go :
    (ms : List Move) (q : ℕ)
    → let s = run start ms in
      let after = run s (work_and_go q) in
      s.procs q ≡ waiting
      → ((outstanding s ≡ 0) × (after ≡ s))
        ⊎ ((0 < outstanding s) × (after.procs q ≡ released) × (after.reads ≡ s.reads + 1))
unfolding run worked
waiting-work_and_go ms q here = elim (Bool-cases (outstanding s == 0)) [
  | inl e ↦
      let z : outstanding s ≡ 0 = ground (arith, e) in
      inl (z, ap (λ x. move x (go q)) (worked-nothing s z) ∙ go-nothing s q here (omega (arith, z)))
  | inr e ↦
      let there : 0 < outstanding s = ground (arith, e) in
      let (gone, counted) =
        go-released (worked s) q (ap (λ f. f q) (worked-procs s) ∙ here)
          (worked-done s bits there) in
      inr (there, gone, counted ∙ ap (λ n. n + 1) (worked-reads s))
]
  where
    s : System
    s = run start ms

    bits : IsBinary (run start ms)
    bits = run-IsBinary start ms (record { due = omega arith; running = omega arith })
