-- ===== src/Driver/CompletionExample/Waiting.antt =====
-- The init and its worker, under any scheduler.
use embedded_linux_bsp.Common.{ℕ, ◌≡◌, refl, subst, ◌⊎◌, inl, inr, List, [], ◌∷◌, ℤ, pos, arith}
use embedded_linux_bsp.Common.World.{Result, ok, err}
use embedded_linux_bsp.Driver.CompletionExample.{
  WorkerAt, not_started, asleep, awake, finished, InitAt, starting, waiting, returned, System,
  loading, worker_thread, completion_example_init, Who, worker, init, step, turn, schedule,
}

-- The states that the two threads come through.
abbrev pub IsWaitedFor : Result (Unit {0}) → ℕ → WorkerAt → InitAt → Type 0
IsWaitedFor k done not_started starting = done ≡ 0
IsWaitedFor k done not_started (returned e) = (done ≡ 0) × (k ≡ err e)
IsWaitedFor k done asleep waiting = done ≡ 0
IsWaitedFor k done awake waiting = done ≡ 0
IsWaitedFor k done finished waiting = done ≡ 1
IsWaitedFor k done finished (returned e) = (done ≡ 0) × (e ≡ pos 0)
IsWaitedFor k done _ _ = ⊥

worker-IsWaitedFor :
    (k : Result (Unit {0})) (done : ℕ) (x : WorkerAt) (y : InitAt)
    → IsWaitedFor k done x y
    → IsWaitedFor k
        (turn k (record { done = done; worker = x; init = y }) worker).done
        (turn k (record { done = done; worker = x; init = y }) worker).worker
        (turn k (record { done = done; worker = x; init = y }) worker).init
unfolding turn step worker_thread
worker-IsWaitedFor k done not_started y h = h
worker-IsWaitedFor k done asleep waiting h = h
worker-IsWaitedFor k done asleep starting h = h
worker-IsWaitedFor k done asleep (returned e) h = h
worker-IsWaitedFor k done awake waiting h = omega (arith, h)
worker-IsWaitedFor k done awake starting h = absurd h
worker-IsWaitedFor k done awake (returned e) h = absurd h
worker-IsWaitedFor k done finished y h = h

init-IsWaitedFor :
    (k : Result (Unit {0})) (done : ℕ) (x : WorkerAt) (y : InitAt)
    → IsWaitedFor k done x y
    → IsWaitedFor k
        (turn k (record { done = done; worker = x; init = y }) init).done
        (turn k (record { done = done; worker = x; init = y }) init).worker
        (turn k (record { done = done; worker = x; init = y }) init).init
unfolding turn step completion_example_init
init-IsWaitedFor (err e) done not_started starting h = (h, refl)
init-IsWaitedFor (ok _) done not_started starting h = h
init-IsWaitedFor k done not_started waiting h = absurd h
init-IsWaitedFor k done not_started (returned e) h = h
init-IsWaitedFor k done asleep starting h = absurd h
init-IsWaitedFor k done asleep waiting h = rw h refl
init-IsWaitedFor k done asleep (returned e) h = h
init-IsWaitedFor k done awake starting h = absurd h
init-IsWaitedFor k done awake waiting h = rw h refl
init-IsWaitedFor k done awake (returned e) h = h
init-IsWaitedFor k done finished starting h = absurd h
init-IsWaitedFor k done finished waiting h = rw h (refl, refl)
init-IsWaitedFor k done finished (returned e) h = h

abbrev IsWaited : Result (Unit {0}) → System → Type 0
IsWaited k s = IsWaitedFor k s.done s.worker s.init

turn-IsWaited :
    (k : Result (Unit {0})) (s : System) (who : Who) → IsWaited k s → IsWaited k (turn k s who)
turn-IsWaited k s worker h = worker-IsWaitedFor k s.done s.worker s.init h
turn-IsWaited k s init h = init-IsWaitedFor k s.done s.worker s.init h

schedule-IsWaited :
    (k : Result (Unit {0})) (whos : List Who) (s : System)
    → IsWaited k s
    → IsWaited k (schedule k s whos)
unfolding schedule
schedule-IsWaited k [] s h = h
schedule-IsWaited k (who ∷ whos) s h =
    schedule-IsWaited k whos (turn k s who) (turn-IsWaited k s who h)

ended :
    (k : Result (Unit {0})) (done : ℕ) (x : WorkerAt) (e : ℤ)
    → IsWaitedFor k done x (returned e)
    → ((k ≡ err e) × (x ≡ not_started)) ⊎ ((e ≡ pos 0) × (x ≡ finished) × (done ≡ 0))
ended k done not_started e (h, q) = inl (q, refl)
ended k done asleep e h = absurd h
ended k done awake e h = absurd h
ended k done finished e (h, q) = inr (q, refl, h)

-- After any turns of the two threads: if the init has returned, then it has returned the error of `kthread_run` and
-- there is no worker; or 0, the worker has called `complete`, and the completion is used up.
pub schedule-returned :
    (k : Result (Unit {0})) (whos : List Who) (e : ℤ)
    → (schedule k loading whos).init ≡ returned e
    → let s = schedule k loading whos in
      ((k ≡ err e) × (s.worker ≡ not_started))
      ⊎ ((e ≡ pos 0) × (s.worker ≡ finished) × (s.done ≡ 0))
schedule-returned k whos e q =
    let s = schedule k loading whos in
    ended k s.done s.worker e
      (subst (IsWaitedFor k s.done s.worker) q (schedule-IsWaited k whos loading refl))
