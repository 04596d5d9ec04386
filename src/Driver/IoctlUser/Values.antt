-- ===== src/Driver/IoctlUser/Values.antt =====
-- What the program prints: of a device that keeps its value, and of char_device.c.
use embedded_linux_bsp.Common.{ℕ, ◌≡◌, refl, ap, some, List}
use embedded_linux_bsp.Common.World.{ok}
use embedded_linux_bsp.Driver.CharDevice
use embedded_linux_bsp.Driver.CharDevice.{Device}
use embedded_linux_bsp.Driver.IoctlUser.{my_ioctl_set_val, my_ioctl_get_val, int_bytes, Ioctl, main}

-- What the names of the commands promise: the value got is the value set.
abbrev pub KeepsValue : {D : Type 0} → Ioctl D → Type 0
KeepsValue {D} ioctl =
    (dev : D) (val memory : List ℕ)
    → (ioctl (ioctl dev my_ioctl_set_val val).0 my_ioctl_get_val memory).1 ≡ val

-- On a device that keeps its value, the program prints the value that it has set, 123.
pub main-KeepsValue :
    {D : Type 0} (ioctl : Ioctl D) (dev : D)
    → KeepsValue ioctl
    → ((main (ok tt) ioctl dev).1 ≡ some (int_bytes 123)) × ((main (ok tt) ioctl dev).2 ≡ 0)
unfolding main
main-KeepsValue ioctl dev keeps = (ap some (keeps _ (int_bytes 123) (int_bytes 0)), refl)

-- The character device does not keep it: the program prints 0, and leaves the device as it was.
pub main-my_ioctl :
    (dev : Device) → main (ok tt) CharDevice.my_ioctl dev ≡ (dev, some (int_bytes 0), 0)
unfolding main CharDevice.my_ioctl
main-my_ioctl dev = refl
