-- ===== src/Driver/MutexExample/Effort.antt =====
-- How far the two workers have come.
use embedded_linux_bsp.Common.{
  ℕ, ◌+◌, ◌*◌, ◌≤◌, ◌≡◌, Bool-cases, ltb, some, Option-cases, inl, inr, arith,
}
use embedded_linux_bsp.Driver.MutexExample.{
  Who, thread1, thread2, At, unlocked, locked, loaded, stored, Worker, Shared, System,
  worker_thread, step,
}
use embedded_linux_bsp.Driver.MutexExample.Invariant.{inside}

-- How many of the twenty steps of its life a worker has made.
abbrev pub place : At → ℕ
place unlocked = 0
place locked = 1
place (loaded _) = 2
place stored = 3

abbrev pub effort : Worker → ℕ
effort w = 4 * w.i + place w.at

abbrev pub efforts : System → ℕ
efforts sys = effort sys.worker1 + effort sys.worker2

worker_thread-effort :
    (me : Who) (s s' : Shared) (i : ℕ) (x : At) (w : Worker)
    → worker_thread me s i x ≡ some (s', w)
    → effort w ≡ 1 + (4 * i + place x)
unfolding worker_thread
worker_thread-effort me s s' i unlocked w e = elim (Bool-cases (ltb i 5)) [
  | inr q ↦ cc (rw (q, worker_thread) at e)
  | inl q ↦ elim (Option-cases s.my_mutex) [
    | inr (who, r) ↦ cc (rw (q, worker_thread, r) at e)
    | inl r ↦ ground (arith, (rw (q, worker_thread, r) at e))
  ]
]
worker_thread-effort me s s' i locked w e = ground (arith, e)
worker_thread-effort me s s' i (loaded v) w e = ground (arith, e)
worker_thread-effort me s s' i stored w e = ground (arith, e)

pub step-efforts :
    (who : Who) (sys next : System) → step who sys ≡ some next → efforts next ≡ 1 + efforts sys
unfolding step
step-efforts thread1 sys next e =
    elim (Option-cases (worker_thread thread1 sys.shared sys.worker1.i sys.worker1.at)) [
      | inl q ↦ cc (rw (q, step) at e)
      | inr ((s, w), q) ↦
          let k = worker_thread-effort thread1 sys.shared s sys.worker1.i sys.worker1.at w q in
          ground (arith, k, (rw (q, step) at e))
    ]
step-efforts thread2 sys next e =
    elim (Option-cases (worker_thread thread2 sys.shared sys.worker2.i sys.worker2.at)) [
      | inl q ↦ cc (rw (q, step) at e)
      | inr ((s, w), q) ↦
          let k = worker_thread-effort thread2 sys.shared s sys.worker2.i sys.worker2.at w q in
          ground (arith, k, (rw (q, step) at e))
    ]

pub place-inside : (x : At) → place x ≤ 3 * inside x
place-inside unlocked = omega arith
place-inside locked = omega arith
place-inside (loaded v) = omega arith
place-inside stored = omega arith
