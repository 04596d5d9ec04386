-- ===== src/Driver/Completion.antt =====
-- code/examples/synchronization/completion/completion_example.c: a read waits for the work that a write starts.
-- Any number of processes call the driver; a call goes step by step, with the steps of the others between.
pub mod Releases
pub mod Progress
mod Tests
use embedded_linux_bsp.Common.{
  ℕ, zero, suc, ◌+◌, ◌-◌, ◌&&◌, ◌==◌, ltb, Bool, true, false, Option, none, some, List, [], ◌∷◌, ℤ,
  pos, if◌then◌else◌,
}
use embedded_linux_bsp.Common.World.{Result}
use embedded_linux_bsp.Driver.MiscDevice
use embedded_linux_bsp.Driver.User.{efault, UserCopy}

-- `msg`: "done\n", and the zero byte that ends it
abbrev pub msg : List ℕ
msg = 100 ∷ 111 ∷ 110 ∷ 101 ∷ 10 ∷ 0 ∷ []

-- `sizeof(msg)`
abbrev pub msg_size : ℕ
msg_size = 6

-- `my_read` after the wait: the bytes that reach the process, and the return value. `count` is not looked at.
pub finish_read : UserCopy → (count : ℕ) → List ℕ × ℤ
finish_read u count =
    let (bytes, left) = u.copy_to_user msg msg_size in
    if ltb 0 left then (bytes, efault) else (bytes, pos msg_size)

-- Where a process stands: before the wait of `my_read`, after it, or in `my_write`, before `reinit_completion`
-- or before `schedule_delayed_work`.
pub data At : Type 0 where
  idle : At
  waiting : At
  released : At
  restarting : At
  scheduling : At

-- `my_completion` by how many waiters it lets go on, and `my_work` by whether it is due and whether it has begun
-- (0 or 1).
-- The rest counts what has happened: calls of `schedule_delayed_work`, runs of the work, and reads let go on.
pub record System : Type 0 where
  pub done : ℕ
  pub due : ℕ
  pub running : ℕ
  pub procs : ℕ → At
  pub scheduled : ℕ
  pub completed : ℕ
  pub reads : ℕ

abbrev pub start : System
start = record {
  done = 0;
  due = 0;
  running = 0;
  procs = λ q. idle;
  scheduled = 0;
  completed = 0;
  reads = 0;
}

abbrev pub update : (ℕ → At) → ℕ → At → ℕ → At
update procs q x r = if r == q then x else procs r

-- One step of process `q`, which stands at a place: `none` if it waits. A completion lets one waiter go on, and
-- a work that is due already is not scheduled again.
pub turn : System → ℕ → At → Option System
turn s q idle = none
turn s q waiting =
    if s.done == 0
    then none
    else some
        (record s { done = s.done - 1; procs = update s.procs q released; reads = s.reads + 1 })
turn s q released = some (record s { procs = update s.procs q idle })
turn s q restarting = some (record s { done = 0; procs = update s.procs q scheduling })
turn s q scheduling =
    some (record s { due = 1; procs = update s.procs q idle; scheduled = s.scheduled + 1 })

-- `work_func`
pub work_func : System → System
work_func s = record s { done = s.done + 1; running = 0; completed = s.completed + 1 }

-- What happens next: a process that is idle calls, one goes on, the time of the work has come and it begins,
-- or it runs.
pub data Move : Type 0 where
  call_read call_write go : (q : ℕ) → Move
  begin_work run_work : Move

pub call : System → ℕ → At → At → System
call s q idle x = record s { procs = update s.procs q x }
call s q _ x = s

abbrev pub after_turn : System → Option System → System
after_turn s none = s
after_turn s (some next) = next

-- The work does not begin again while it runs.
pub move : System → Move → System
move s (call_read q) = call s q (s.procs q) waiting
move s (call_write q) = call s q (s.procs q) restarting
move s (go q) = after_turn s (turn s q (s.procs q))
move s begin_work = if s.due == 1 && s.running == 0 then record s { due = 0; running = 1 } else s
move s run_work = if s.running == 1 then work_func s else s

pub run : System → List Move → System
run s [] = s
run s (m ∷ ms) = run (move s m) ms

-- `my_init` registers the device
abbrev pub my_init : (misc_register : ℕ → Result (Unit {0})) → MiscDevice.Action (Unit {0})
my_init = MiscDevice.my_init

-- `my_exit`, with `cancel_delayed_work_sync` before the device is removed: afterwards the work is neither due nor running.
pub my_exit : System → System × MiscDevice.Action (Unit {0})
my_exit s = (record s { due = 0; running = 0 }, MiscDevice.my_exit)
