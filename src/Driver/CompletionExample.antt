-- ===== src/Driver/CompletionExample.antt =====
-- code/examples/completion_example.c: the init waits for a worker thread; and code/examples/spinlock_example.c, which
-- counts once under a spinlock.
pub mod Waiting
mod Tests
use mathlib.Core.List.{foldl}
use embedded_linux_bsp.Common.{ℕ, ◌+◌, ◌-◌, ◌==◌, Option, none, some, List, ℤ, pos, if◌then◌else◌}
use embedded_linux_bsp.Common.World.{Result, ok, err}

-- Where `worker_thread` stands: not there, before or after `msleep`, or after `complete`.
pub data WorkerAt : Type 0 where
  not_started asleep awake finished : WorkerAt

-- Where `completion_example_init` stands, and what it returned.
pub data InitAt : Type 0 where
  starting : InitAt
  waiting : InitAt
  returned : ℤ → InitAt

-- `my_comp`, by how many waiters it lets go on, and the two threads
pub record System : Type 0 where
  pub done : ℕ
  pub worker : WorkerAt
  pub init : InitAt

abbrev pub loading : System
loading = record { done = 0; worker = not_started; init = starting }

-- The next step of the worker; `none` if it has none.
pub worker_thread : ℕ → WorkerAt → Option (ℕ × WorkerAt)
worker_thread done not_started = none
worker_thread done asleep = some (done, awake)
worker_thread done awake = some (done + 1, finished)
worker_thread done finished = none

-- The next step of the init; `kthread_run` is the kernel's, as a parameter.
pub completion_example_init : (kthread_run : Result (Unit {0})) → System → Option System
completion_example_init kthread_run s = elim s.init [
  | starting ↦ elim kthread_run [
    | err e ↦ some (record s { init = returned e })
    | ok _ ↦ some (record s { worker = asleep; init = waiting })
  ]
  | waiting ↦
      if s.done == 0 then none else some (record s { done = s.done - 1; init = returned (pos 0) })
  | returned _ ↦ none
]

pub data Who : Type 0 where
  worker init : Who

pub step : (kthread_run : Result (Unit {0})) → Who → System → Option System
step kthread_run worker s = elim (worker_thread s.done s.worker) [
  | none ↦ none
  | some moved ↦ some (record s { done = moved.0; worker = moved.1 })
]
step kthread_run init s = completion_example_init kthread_run s

-- A turn of a thread that cannot move changes nothing.
pub turn : (kthread_run : Result (Unit {0})) → System → Who → System
turn kthread_run s who = elim (step kthread_run who s) [ none ↦ s | some next ↦ next ]

pub schedule : (kthread_run : Result (Unit {0})) → System → List Who → System
schedule kthread_run = foldl (turn kthread_run)

-- `completion_example_exit` stops the worker, if there is one: whether that thread still runs.
pub completion_example_exit : System → Option WorkerAt
completion_example_exit s = elim s.worker [
  | not_started ↦ none
  | asleep ↦ some asleep
  | awake ↦ some awake
  | finished ↦ some finished
]

-- `spinlock_example_init`: the counter after it, and the return value
pub spinlock_example_init : (counter : ℕ) → ℕ × ℤ
spinlock_example_init counter = (counter + 1, pos 0)
