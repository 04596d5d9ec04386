-- ===== src/Driver/Panel/History.antt =====
-- The flags of the panel as a function of the calls that were made.
use embedded_linux_bsp.Common.{ℕ, ◌+◌, ◌*◌, ◌≡◌, true, false, Bool, List, [], ◌∷◌, arith}
use embedded_linux_bsp.Driver.Panel.{MinimalPanel, Op, prepare, enable, disable, unprepare, apply}

-- The calls, oldest first.
pub run : List Op → MinimalPanel → MinimalPanel
run [] ctx = ctx
run (op ∷ ops) ctx = run ops (apply op ctx)

-- What the calls say, if the panel did nothing but remember the last one of each pair.
abbrev pub last_power : Bool → List Op → Bool
last_power before [] = before
last_power before (prepare ∷ ops) = last_power true ops
last_power before (unprepare ∷ ops) = last_power false ops
last_power before (enable ∷ ops) = last_power before ops
last_power before (disable ∷ ops) = last_power before ops

abbrev pub last_output : Bool → List Op → Bool
last_output before [] = before
last_output before (enable ∷ ops) = last_output true ops
last_output before (disable ∷ ops) = last_output false ops
last_output before (prepare ∷ ops) = last_output before ops
last_output before (unprepare ∷ ops) = last_output before ops

-- How often the power changes: the calls that find it already as they want it do not count.
abbrev pub switches : Bool → List Op → ℕ
switches before [] = 0
switches true (prepare ∷ ops) = switches true ops
switches false (prepare ∷ ops) = 1 + switches true ops
switches true (unprepare ∷ ops) = 1 + switches false ops
switches false (unprepare ∷ ops) = switches false ops
switches before (enable ∷ ops) = switches before ops
switches before (disable ∷ ops) = switches before ops

-- After any sequence of the four calls, repeated and misordered ones included, the panel is prepared or not,
-- and enabled or not, as the last call of each pair says (or as it was, if there was none); and it has slept
-- 120 ms for each call that changed the power, and for no other.
pub run-history :
    (ops : List Op) (ctx : MinimalPanel)
    → run ops ctx ≡ record {
      prepared = last_power ctx.prepared ops;
      enabled = last_output ctx.enabled ops;
      slept = ctx.slept + 120 * switches ctx.prepared ops;
    }
unfolding run apply
run-history [] ctx = ground arith
run-history (op ∷ ops) ctx = ground (arith, run-history ops (apply op ctx))
