-- ===== src/Driver/SharedCounter/Interleaving.antt =====
-- The calls of any number of processes, step by step: what each does between two steps of the others.
use embedded_linux_bsp.Common.{
  ℕ, ◌≡◌, ◌==◌, Option, none, some, List, [], ◌∷◌, ◌++◌, ℤ, if◌then◌else◌,
}
use embedded_linux_bsp.Driver.SharedCounter.{add_delta, initial_counter}

-- Where a process stands in `my_read` or `my_write`.
pub data At : Type 0 where
  idle : At
  -- before the lock, the delta parsed
  wants_value : At
  wants_add : ℤ → At
  -- with the lock
  reading : At
  got : ℕ → At
  adding : ℤ → At
  loaded : ℤ → ℕ → At
  stored : At
  -- after the unlock of `my_read`
  returning : ℕ → At

-- What happened to the counter, in the order in which it did: a value was taken, a delta was added.
pub data Event : Type 0 where
  took : ℕ → Event
  added : ℤ → Event

pub record System : Type 0 where
  pub counter_lock : Option ℕ
  pub shared_counter : ℕ
  pub procs : ℕ → At
  pub log : List Event

abbrev pub start : System
start = record {
  counter_lock = none;
  shared_counter = initial_counter;
  procs = λ q. idle;
  log = [];
}

-- Process `q` goes to another place.
abbrev pub update : (ℕ → At) → ℕ → At → ℕ → At
update procs q x r = if r == q then x else procs r

pub data Step : System → System → Type 0 where
  call_read :
      (s : System) (q : ℕ)
      → s.procs q ≡ idle
      → Step s (record s { procs = update s.procs q wants_value })
  call_write :
      (s : System) (q : ℕ) (delta : ℤ)
      → s.procs q ≡ idle
      → Step s (record s { procs = update s.procs q (wants_add delta) })
  lock_read :
      (s : System) (q : ℕ)
      → s.procs q ≡ wants_value
      → s.counter_lock ≡ none
      → Step s (record s { counter_lock = some q; procs = update s.procs q reading })
  take_value :
      (s : System) (q : ℕ)
      → s.procs q ≡ reading
      → Step s (record s {
        procs = update s.procs q (got s.shared_counter);
        log = s.log ++ took s.shared_counter ∷ [];
      })
  unlock_read :
      (s : System) (q value : ℕ)
      → s.procs q ≡ got value
      → Step s (record s { counter_lock = none; procs = update s.procs q (returning value) })
  return_read :
      (s : System) (q value : ℕ)
      → s.procs q ≡ returning value
      → Step s (record s { procs = update s.procs q idle })
  lock_write :
      (s : System) (q : ℕ) (delta : ℤ)
      → s.procs q ≡ wants_add delta
      → s.counter_lock ≡ none
      → Step s (record s { counter_lock = some q; procs = update s.procs q (adding delta) })
  -- `shared_counter += delta` is a load and a store
  load :
      (s : System) (q : ℕ) (delta : ℤ)
      → s.procs q ≡ adding delta
      → Step s (record s { procs = update s.procs q (loaded delta s.shared_counter) })
  store :
      (s : System) (q : ℕ) (delta : ℤ) (value : ℕ)
      → s.procs q ≡ loaded delta value
      → Step s (record s {
        shared_counter = add_delta value delta;
        procs = update s.procs q stored;
        log = s.log ++ added delta ∷ [];
      })
  unlock_write :
      (s : System) (q : ℕ)
      → s.procs q ≡ stored
      → Step s (record s { counter_lock = none; procs = update s.procs q idle })

-- The systems that steps lead to.
pub data Reach (s : System) : System → Type 0 where
  here : Reach s s
  next : {v w : System} → Reach s v → Step v w → Reach s w
