-- ===== src/Driver/MutexExample/Progress.antt =====
-- When the two workers can take a step.
use embedded_linux_bsp.Common.{
  ℕ, ◌+◌, ◌≤◌, ◌<◌, ◌≡◌, refl, ap, ◌∙◌, false, Bool-cases, ltb, lt→ltb, ltb→lt, none, some, List,
  ◌⊎◌, inl, inr, arith,
}
use embedded_linux_bsp.Driver.MutexExample.{
  Who, thread1, thread2, At, unlocked, locked, loaded, stored, Worker, Shared, System,
  mutex_example_init, worker_thread, step, schedule,
}
use embedded_linux_bsp.Driver.MutexExample.Invariant.{
  inside, free_of_held, IsSafeSystem, schedule-IsSafe,
}

-- Some worker can move.
abbrev pub CanMove : System → Type 0
CanMove sys = (who : Who) × ((next : System) × (step who sys ≡ some next))

At-cases : (x : At) → (x ≡ unlocked) ⊎ (inside x ≡ 1)
At-cases unlocked = inl refl
At-cases locked = inr refl
At-cases (loaded v) = inr refl
At-cases stored = inr refl

abbrev Moves : Who → Shared → Worker → Type 0
Moves me s w = (moved : Shared × Worker) × (worker_thread me s w.i w.at ≡ some moved)

-- A worker that holds the mutex does not wait, and one that may enter does.
inside-Moves :
    (me : Who) (s : Shared) (i : ℕ) (x : At) → inside x ≡ 1 → Moves me s (record { i = i; at = x })
unfolding worker_thread
inside-Moves me s i unlocked e = absurd (omega (arith, e))
inside-Moves me s i locked e = (_, refl)
inside-Moves me s i (loaded v) e = (_, refl)
inside-Moves me s i stored e = (_, refl)

unlocked-Moves :
    (me : Who) (s : Shared) (w : Worker)
    → w.at ≡ unlocked
    → s.my_mutex ≡ none
    → w.i < 5
    → Moves me s w
unfolding worker_thread
unlocked-Moves me s w at free more = (
  (record s { my_mutex = some me }, record { i = w.i; at = locked }),
  ap (worker_thread me s w.i) at ∙ rw (lt→ltb w.i 5 more, worker_thread, free) refl,
)

first-Moves : (sys : System) → Moves thread1 sys.shared sys.worker1 → CanMove sys
unfolding step
first-Moves sys (moved, q) =
    (thread1, (record sys { shared = moved.0; worker1 = moved.1 }, rw (q, step) refl))

second-Moves : (sys : System) → Moves thread2 sys.shared sys.worker2 → CanMove sys
unfolding step
second-Moves sys (moved, q) =
    (thread2, (record sys { shared = moved.0; worker2 = moved.1 }, rw (q, step) refl))

-- From any state that the invariant allows.
pub safe_progress :
    (sys : System) → IsSafeSystem sys → CanMove sys ⊎ ((sys.worker1.i ≡ 5) × (sys.worker2.i ≡ 5))
safe_progress sys h = elim (At-cases sys.worker1.at) [
  | inr busy ↦
      inl (first-Moves sys (inside-Moves thread1 sys.shared sys.worker1.i sys.worker1.at busy))
  | inl out ↦ elim (At-cases sys.worker2.at) [
    | inr busy ↦
        inl (second-Moves sys (inside-Moves thread2 sys.shared sys.worker2.i sys.worker2.at busy))
    | inl out₂ ↦
        let free = free_of_held _ (omega (arith, h.exclusive, ap inside out, ap inside out₂)) in
        elim (Bool-cases (ltb sys.worker1.i 5)) [
          | inl more ↦ inl (first-Moves sys (unlocked-Moves thread1 _ _ out free (ltb→lt _ 5 more)))
          | inr all ↦ elim (Bool-cases (ltb sys.worker2.i 5)) [
            | inl more ↦
                inl (second-Moves sys (unlocked-Moves thread2 _ _ out₂ free (ltb→lt _ 5 more)))
            | inr all₂ ↦ inr (done _ _ all h.bound_a, done _ _ all₂ h.bound_b)
          ]
        ]
  ]
]
  where
    done : (i n : ℕ) → ltb i 5 ≡ false → i + n ≤ 5 → i ≡ 5
    done i n q b = ground (arith, q, b)

-- After any sequence of turns, some worker can move, unless both have done their five rounds: there is no
-- deadlock.
pub schedule_progress :
    (whos : List Who)
    → CanMove (schedule mutex_example_init whos)
      ⊎ (((schedule mutex_example_init whos).worker1.i ≡ 5)
          × ((schedule mutex_example_init whos).worker2.i ≡ 5))
schedule_progress whos = safe_progress (schedule mutex_example_init whos) (schedule-IsSafe whos)
