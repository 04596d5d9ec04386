-- ===== src/Driver/MutexExample/Invariant.antt =====
-- The counter and the mutex under any interleaving of the two workers.
use embedded_linux_bsp.Common.{
  ℕ, ◌+◌, ◌≤◌, ◌≡◌, refl, ap, subst, Bool-cases, ltb, ltb→lt, Option, none, some, Option-cases,
  List, [], ◌∷◌, inl, inr, arith,
}
use embedded_linux_bsp.Driver.MutexExample.{
  Who, thread1, thread2, At, unlocked, locked, loaded, stored, Worker, Shared, System,
  mutex_example_init, worker_thread, step, turn, schedule,
}

-- 1 between `mutex_lock` and `mutex_unlock`
abbrev pub inside : At → ℕ
inside unlocked = 0
inside locked = 1
inside (loaded _) = 1
inside stored = 1

-- 1 for a round whose increment is stored and whose lock is still held
abbrev pub counted : At → ℕ
counted unlocked = 0
counted locked = 0
counted (loaded _) = 0
counted stored = 1

-- What a worker has loaded is what is there.
abbrev pub IsFresh : ℕ → At → Type 0
IsFresh n unlocked = Unit
IsFresh n locked = Unit
IsFresh n (loaded v) = v ≡ n
IsFresh n stored = Unit

abbrev pub held : Option Who → ℕ
held none = 0
held (some _) = 1

-- One worker at most is inside, just when the mutex is held, and the counter is what the rounds add up to.
pub record IsSafe (s : Shared) (a b : Worker) : Type 0 where
  pub exclusive : inside a.at + inside b.at ≡ held s.my_mutex
  pub total : s.shared_data ≡ a.i + b.i + counted a.at + counted b.at
  pub fresh_a : IsFresh s.shared_data a.at
  pub fresh_b : IsFresh s.shared_data b.at
  pub bound_a : a.i + inside a.at ≤ 5
  pub bound_b : b.i + inside b.at ≤ 5

IsSafe-swap : (s : Shared) (a b : Worker) → IsSafe s a b → IsSafe s b a
IsSafe-swap s a b h = record {
  exclusive = omega (arith, h.exclusive);
  total = omega (arith, h.total);
  fresh_a = h.fresh_b;
  fresh_b = h.fresh_a;
  bound_a = h.bound_b;
  bound_b = h.bound_a;
}

-- A worker outside has loaded nothing, and counts for nothing.
outside-IsFresh : (x : At) (n : ℕ) → inside x ≡ 0 → IsFresh n x × (counted x ≡ 0)
outside-IsFresh unlocked n e = (tt, refl)
outside-IsFresh locked n e = absurd (omega (arith, e))
outside-IsFresh (loaded v) n e = absurd (omega (arith, e))
outside-IsFresh stored n e = absurd (omega (arith, e))

held-bound : (o : Option Who) → held o ≤ 1
held-bound none = omega arith
held-bound (some _) = omega arith

-- The system after a move of the first of two workers, if it moves.
abbrev IsKept : Worker → Option (Shared × Worker) → Type 0
IsKept b none = Unit
IsKept b (some (s, a)) = IsSafe s a b

worker_thread-IsKept :
    (me : Who) (s : Shared) (i : ℕ) (x : At) (b : Worker)
    → IsSafe s (record { i = i; at = x }) b
    → IsKept b (worker_thread me s i x)
unfolding worker_thread
worker_thread-IsKept me s i unlocked b h = elim (Bool-cases (ltb i 5)) [
  | inr q ↦ rw (q, worker_thread) tt
  | inl q ↦ elim (Option-cases s.my_mutex) [
    | inr (who, r) ↦ rw (q, worker_thread, r) tt
    | inl r ↦
        rw (q, worker_thread, r)
          (record {
            exclusive = let z : held s.my_mutex ≡ 0 = ap held r in omega (arith, h.exclusive, z);
            total = h.total;
            fresh_a = tt;
            fresh_b = h.fresh_b;
            bound_a = omega (arith, ltb→lt i 5 q);
            bound_b = h.bound_b;
          })
  ]
]
worker_thread-IsKept me s i locked b h = record {
  exclusive = h.exclusive;
  total = h.total;
  fresh_a = refl;
  fresh_b = h.fresh_b;
  bound_a = h.bound_a;
  bound_b = h.bound_b;
}
worker_thread-IsKept me s i (loaded v) b h = record {
  exclusive = h.exclusive;
  total = omega (arith, h.total, h.fresh_a, alone.1);
  fresh_a = tt;
  fresh_b = alone.0;
  bound_a = h.bound_a;
  bound_b = h.bound_b;
}
  where
    alone : IsFresh (v + 1) b.at × (counted b.at ≡ 0)
    alone = outside-IsFresh b.at (v + 1) (omega (arith, h.exclusive, held-bound s.my_mutex))
worker_thread-IsKept me s i stored b h = record {
  exclusive = omega (arith, h.exclusive, held-bound s.my_mutex);
  total = omega (arith, h.total);
  fresh_a = tt;
  fresh_b = h.fresh_b;
  bound_a = omega (arith, h.bound_a);
  bound_b = h.bound_b;
}

abbrev pub IsSafeSystem : System → Type 0
IsSafeSystem sys = IsSafe sys.shared sys.worker1 sys.worker2

pub turn-IsSafe : (sys : System) (who : Who) → IsSafeSystem sys → IsSafeSystem (turn sys who)
unfolding turn step
turn-IsSafe sys thread1 h =
    elim (Option-cases (worker_thread thread1 sys.shared sys.worker1.i sys.worker1.at)) [
      | inl q ↦ rw (q, turn, step) h
      | inr (moved, q) ↦
          rw (q, turn, step)
            (subst (IsKept sys.worker2) q
              (worker_thread-IsKept thread1 sys.shared sys.worker1.i sys.worker1.at sys.worker2 h))
    ]
turn-IsSafe sys thread2 h =
    elim (Option-cases (worker_thread thread2 sys.shared sys.worker2.i sys.worker2.at)) [
      | inl q ↦ rw (q, turn, step) h
      | inr (moved, q) ↦
          rw (q, turn, step)
            (IsSafe-swap _ _ _ (
              subst (IsKept sys.worker1) q (
                worker_thread-IsKept thread2 sys.shared sys.worker2.i sys.worker2.at sys.worker1
                  (IsSafe-swap _ _ _ h))))
    ]

pub schedule_from-IsSafe :
    (sys : System) (whos : List Who) → IsSafeSystem sys → IsSafeSystem (schedule sys whos)
unfolding schedule
schedule_from-IsSafe sys [] h = h
schedule_from-IsSafe sys (who ∷ whos) h =
    schedule_from-IsSafe (turn sys who) whos (turn-IsSafe sys who h)

pub init-IsSafe : IsSafeSystem mutex_example_init
init-IsSafe = record {
  exclusive = refl;
  total = refl;
  fresh_a = tt;
  fresh_b = tt;
  bound_a = omega arith;
  bound_b = omega arith;
}

-- After any sequence of turns: at most one worker is between lock and unlock, and one is just when the mutex is
-- held; the counter is the number of rounds, with those whose increment is stored but whose lock is still
-- held; a value that was loaded is the counter's; and no worker has done more than five rounds.
pub schedule-IsSafe : (whos : List Who) → IsSafeSystem (schedule mutex_example_init whos)
schedule-IsSafe whos = schedule_from-IsSafe mutex_example_init whos init-IsSafe

pub free_of_held : (o : Option Who) → held o ≡ 0 → o ≡ none
free_of_held none e = refl
free_of_held (some who) e = absurd (omega (arith, e))

finished-outside : (w : Worker) → w.i ≡ 5 → w.i + inside w.at ≤ 5 → inside w.at ≡ 0
finished-outside w e h = omega arith

-- In whatever order the workers took their turns, once both have done their five rounds the counter is
-- 10 and the mutex is free.
pub schedule_finished :
    (whos : List Who)
    → (schedule mutex_example_init whos).worker1.i ≡ 5
    → (schedule mutex_example_init whos).worker2.i ≡ 5
    → ((schedule mutex_example_init whos).shared.shared_data ≡ 10)
      × ((schedule mutex_example_init whos).shared.my_mutex ≡ none)
schedule_finished whos e f =
    let h = schedule-IsSafe whos in
    let sys = schedule mutex_example_init whos in
    let a = finished-outside sys.worker1 e h.bound_a in
    let b = finished-outside sys.worker2 f h.bound_b in
    let (_, c) = outside-IsFresh sys.worker1.at 0 a in
    let (_, d) = outside-IsFresh sys.worker2.at 0 b in
    (omega (arith, h.total, c, d), free_of_held _ (omega (arith, h.exclusive, a, b)))
