-- ===== src/Driver/MiscDevice.antt =====
-- code/examples/kernel/miscdevice/misc_device.c: its handlers are those of the character device, on a
-- buffer of its own.
use embedded_linux_bsp.Common.{ℕ, refl, true, List, ℤ}
use embedded_linux_bsp.Common.World.{Result, Run, ◌>>◌, ask, hold, give_back}
use embedded_linux_bsp.Common.Ledger.{Resource}
use embedded_linux_bsp.Driver.User.{UserCopy}
use embedded_linux_bsp.Driver.CharDevice
use embedded_linux_bsp.Driver.CharDevice.{Device, FileOperations}

abbrev pub my_open : Device → Device × ℤ
my_open = CharDevice.my_open

abbrev pub my_release : Device → Device × ℤ
my_release = CharDevice.my_release

abbrev pub my_read : UserCopy → Device → ℕ → List ℕ × ℤ
my_read = CharDevice.my_read

abbrev pub my_write : UserCopy → Device → List ℕ → ℕ → Device × ℤ
my_write = CharDevice.my_write

abbrev pub my_ioctl : Device → ℕ → List ℕ → Device × List ℕ × ℤ
my_ioctl = CharDevice.my_ioctl

abbrev pub my_fops : UserCopy → FileOperations
my_fops u = record {
  open_file = my_open;
  release = my_release;
  read = my_read u;
  write = my_write u;
  unlocked_ioctl = my_ioctl;
}

-- What `my_init` takes from the kernel.
pub data Object : Type 0 where
  miscdevice : Object

instance abbrev pub object_resource : Resource Object
object_resource = record { same = λ a b. true; same_refl = λ a. refl }

abbrev pub Action : Type 0 → Type 0
Action = Run Object (Unit {0})

-- `misc_register` is the kernel's, as a parameter.
pub my_init : (misc_register : ℕ → Result (Unit {0})) → Action (Unit {0})
my_init misc_register = do ask misc_register; hold miscdevice

pub my_exit : Action (Unit {0})
my_exit = give_back miscdevice
