-- ===== src/Driver/SpinCounter.antt =====
-- code/examples/synchronization/spinlock/spinlock_example.c: the functions of the counter under a mutex,
-- under a spinlock with interrupts off. No step of another process comes between the lock and the unlock of
-- one that has it on its processor; the interleavings of SharedCounter allow more.
use embedded_linux_bsp.Common.{ℕ, List, ℤ}
use embedded_linux_bsp.Common.World.{Result}
use embedded_linux_bsp.Driver.MiscDevice
use embedded_linux_bsp.Driver.User.{UserCopy}
use embedded_linux_bsp.Driver.SharedCounter
use embedded_linux_bsp.Driver.SharedCounter.{Numerals}

abbrev pub my_read : UserCopy → Numerals → (shared_counter count ppos : ℕ) → List ℕ × ℤ × ℕ
my_read = SharedCounter.my_read

abbrev pub my_write :
    UserCopy → Numerals → (tmp : List ℕ) (shared_counter : ℕ) (from : List ℕ) (count : ℕ) → ℕ × ℤ
my_write = SharedCounter.my_write

abbrev pub my_init : (misc_register : ℕ → Result (Unit {0})) → MiscDevice.Action (Unit {0})
my_init = MiscDevice.my_init

abbrev pub my_exit : MiscDevice.Action (Unit {0})
my_exit = MiscDevice.my_exit
