-- ===== src/Driver/MutexExample.antt =====
-- code/examples/mutex_example.c: two kernel threads that count under a mutex, in any interleaving.
pub mod Invariant
pub mod Progress
pub mod Effort
pub mod Ending
mod Tests
use mathlib.Core.List.{foldl}
use embedded_linux_bsp.Common.{
  ℕ, ◌+◌, true, false, Bool, ltb, Option, none, some, List, [], ◌∷◌, if◌then◌else◌,
}

-- thread1 and thread2
pub data Who : Type 0 where
  thread1 thread2 : Who

-- Where a worker stands in a round of its loop; `shared_data++` is a load and a store.
pub data At : Type 0 where
  unlocked : At
  locked : At
  loaded : ℕ → At
  stored : At

pub record Worker : Type 0 where
  pub i : ℕ
  pub at : At

-- `my_mutex`, with its owner, and `shared_data`
pub record Shared : Type 0 where
  pub my_mutex : Option Who
  pub shared_data : ℕ

pub record System : Type 0 where
  pub shared : Shared
  pub worker1 : Worker
  pub worker2 : Worker

-- The variables after `mutex_example_init`, which does not look at what `kthread_run` answers: a thread that is not
-- created has no turn in a schedule.
abbrev pub mutex_example_init : System
mutex_example_init = record {
  shared = record { my_mutex = none; shared_data = 0 };
  worker1 = record { i = 0; at = unlocked };
  worker2 = record { i = 0; at = unlocked };
}

-- The next step of `worker_thread`; `none` while it waits in `mutex_lock`, or after its five rounds.
unfoldable pub worker_thread : Who → Shared → ℕ → At → Option (Shared × Worker)
worker_thread me s i unlocked =
    if ltb i 5
    then (elim s.my_mutex [
      | none ↦ some (record s { my_mutex = some me }, record { i = i; at = locked })
      | some _ ↦ none
    ])
    else none
worker_thread me s i locked = some (s, record { i = i; at = loaded s.shared_data })
worker_thread me s i (loaded v) =
    some (record s { shared_data = v + 1 }, record { i = i; at = stored })
worker_thread me s i stored =
    some (record s { my_mutex = none }, record { i = i + 1; at = unlocked })

unfoldable pub step : Who → System → Option System
step thread1 sys = elim (worker_thread thread1 sys.shared sys.worker1.i sys.worker1.at) [
  | none ↦ none
  | some moved ↦ some (record sys { shared = moved.0; worker1 = moved.1 })
]
step thread2 sys = elim (worker_thread thread2 sys.shared sys.worker2.i sys.worker2.at) [
  | none ↦ none
  | some moved ↦ some (record sys { shared = moved.0; worker2 = moved.1 })
]

-- A turn of a thread that cannot move changes nothing.
unfoldable pub turn : System → Who → System
turn sys who = elim (step who sys) [ none ↦ sys | some next ↦ next ]

-- the turns, in the order of the scheduler
unfoldable pub schedule : System → List Who → System
schedule = foldl turn
