-- ===== src/Driver/WaitQueue.antt =====
-- code/examples/synchronization/waitqueue/waitqueue_example.c: a reader waits until a writer has left something.
-- Any number of processes call the driver; a call goes step by step, with the steps of the others between.
pub mod Causes
pub mod Two
pub mod Sequences
pub mod Latest
pub mod Sleepers
mod Tests
use embedded_linux_bsp.Common.{
  ℕ, ◌==◌, ltb, min, Bool, Option, none, some, List, [], ◌∷◌, replicate, ℤ, pos, if◌then◌else◌,
}
use embedded_linux_bsp.Common.World.{Result}
use embedded_linux_bsp.Driver.MiscDevice
use embedded_linux_bsp.Driver.User.{efault, UserCopy}

abbrev pub buffer_len : ℕ
buffer_len = 128

-- `buffer` and `data_available`
pub record Shared : Type 0 where
  pub buffer : List ℕ
  pub data_available : ℕ

-- Where a process stands: in `my_read` of so many bytes at most, or in `my_write`. In `wait_event` it is about to
-- look at the condition, or on the queue `my_wq`, where it stays until a `wake_up`.
pub data At : Type 0 where
  idle : At
  waiting : (count : ℕ) → At
  asleep : (count : ℕ) → At
  woken : (count : ℕ) → At
  measured : (count len : ℕ) → At
  delivered : (count len : ℕ) (bytes : List ℕ) → At
  filling : (from : List ℕ) (count : ℕ) → At
  filled : (len : ℕ) → At
  -- before the `wake_up`
  waking : At

-- What a call leaves in the history: what a read returned, and its bytes; what a write has made available; or the
-- error.
pub data Event : Type 0 where
  read_done : (count len : ℕ) (bytes : List ℕ) → Event
  wrote : (len : ℕ) → Event
  failed : ℤ → Event

pub record System : Type 0 where
  pub shared : Shared
  pub procs : ℕ → At
  -- the latest first
  pub log : List Event

-- `my_init`, before the registration
abbrev pub start : System
start = record {
  shared = record { buffer = replicate buffer_len 0; data_available = 0 };
  procs = λ q. idle;
  log = [];
}

-- One step of a call that is under way: `none` if it has none to make. `wait_event` puts the process on the queue and
-- looks at the condition as one step, as the kernel documents that no `wake_up` between the two is missed.
pub turn : UserCopy → Shared → At → Option (Shared × At × Option Event)
turn u sh idle = none
turn u sh (waiting count) =
    some (sh, (if sh.data_available == 0 then asleep count else woken count), none)
turn u sh (asleep count) = none
turn u sh (woken count) = some (sh, measured count (min count sh.data_available), none)
turn u sh (measured count len) =
    let (bytes, left) = u.copy_to_user sh.buffer len in
    if ltb 0 left
    then some (sh, idle, some (failed efault))
    else some (sh, delivered count len bytes, none)
turn u sh (delivered count len bytes) =
    some (record sh { data_available = 0 }, idle, some (read_done count len bytes))
turn u sh (filling from count) =
    let len = min count buffer_len in
    let (bytes, left) = u.copy_from_user sh.buffer from len in
    if ltb 0 left
    then some (record sh { buffer = bytes }, idle, some (failed efault))
    else some (record sh { buffer = bytes }, filled len, none)
turn u sh (filled len) = some (record sh { data_available = len }, waking, some (wrote len))
turn u sh waking = some (sh, idle, none)

-- a process on the queue looks at the condition again
pub rouse : At → At
rouse (asleep count) = waiting count
rouse x = x

-- `wake_up(&my_wq)`
pub wake_up : (ℕ → At) → ℕ → At
unfolding rouse
wake_up procs r = rouse (procs r)

-- What the step of a process does to the queue.
pub roused : At → (ℕ → At) → ℕ → At
unfolding wake_up
roused waking procs = wake_up procs
roused x procs = procs

-- What a process does next: it calls `my_read` or `my_write`, or goes on with its call.
pub data Move : Type 0 where
  call_read : (count : ℕ) → Move
  call_write : (from : List ℕ) (count : ℕ) → Move
  go : Move

-- A process that is in a call makes no other.
pub call : At → At → At
call idle x = x
call x y = x

abbrev pub update : (ℕ → At) → ℕ → At → ℕ → At
update procs q x r = if r == q then x else procs r

abbrev pub noted : Option Event → List Event → List Event
noted none log = log
noted (some e) log = e ∷ log

abbrev pub after_turn : System → ℕ → Option (Shared × At × Option Event) → System
after_turn s q none = s
after_turn s q (some (sh, x, e)) = record {
  shared = sh;
  procs = update s.procs q x;
  log = noted e s.log;
}

pub move : UserCopy → System → ℕ → Move → System
move u s q (call_read count) = record s {
  procs = update s.procs q (call (s.procs q) (waiting count));
}
move u s q (call_write from count) = record s {
  procs = update s.procs q (call (s.procs q) (filling from count));
}
move u s q go =
    after_turn (record s { procs = roused (s.procs q) s.procs }) q (turn u s.shared (s.procs q))

pub run : UserCopy → List (ℕ × Move) → System → System
run u [] s = s
run u ((q, m) ∷ ms) s = run u ms (move u s q m)

-- the rest of `my_init`, and `my_exit`, are the misc device's
abbrev pub my_init : (misc_register : ℕ → Result (Unit {0})) → MiscDevice.Action (Unit {0})
my_init = MiscDevice.my_init

abbrev pub my_exit : MiscDevice.Action (Unit {0})
my_exit = MiscDevice.my_exit
