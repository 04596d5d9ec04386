-- ===== src/Driver/IoctlUser.antt =====
-- code/examples/userspace/ioctl_basic/ioctl_user.c, with the commands of
-- code/examples/userspace/ioctl_basic/ioctl_common.h: a process that sets a value of a device, and gets it.
pub mod Values
use embedded_linux_bsp.Common.{ℕ, ◌+◌, ◌*◌, ◌^◌, Option, none, some, List, [], ◌∷◌, ℤ}
use embedded_linux_bsp.Common.World.{Result, ok, err}

-- `MY_IOCTL_MAGIC`, the letter M
abbrev pub my_ioctl_magic : ℕ
my_ioctl_magic = 77

-- `sizeof(int)`
abbrev pub int_size : ℕ
int_size = 4

-- `_IO`, `_IOW` and `_IOR` of the C library: direction, size, letter, number
abbrev pub command : (direction size nr : ℕ) → ℕ
command direction size nr = direction * 2 ^ 30 + size * 2 ^ 16 + my_ioctl_magic * 2 ^ 8 + nr

abbrev pub my_ioctl_reset : ℕ
my_ioctl_reset = command 0 0 0

abbrev pub my_ioctl_set_val : ℕ
my_ioctl_set_val = command 1 int_size 1

abbrev pub my_ioctl_get_val : ℕ
my_ioctl_get_val = command 2 int_size 2

-- The bytes of an `int` below 256 in memory.
abbrev pub int_bytes : ℕ → List ℕ
int_bytes n = n ∷ 0 ∷ 0 ∷ 0 ∷ []

-- `ioctl` on a device, as a parameter: the device, the memory at the argument, and the return value
abbrev pub Ioctl : Type 0 → Type 0
Ioctl D = D → ℕ → List ℕ → D × List ℕ × ℤ

-- `main`: the device afterwards, the bytes of the value that it prints, and the exit status. What the calls
-- return is not looked at.
pub main : {D : Type 0} (opened : Result (Unit {0})) → Ioctl D → D → D × Option (List ℕ) × ℕ
main (err _) ioctl dev = (dev, none, 1)
main (ok _) ioctl dev =
    let after_reset = (ioctl dev my_ioctl_reset []).0 in
    let after_set = (ioctl after_reset my_ioctl_set_val (int_bytes 123)).0 in
    let (after_get, val, ret) = ioctl after_set my_ioctl_get_val (int_bytes 0) in
    (after_get, some val, 0)
