-- ===== src/Driver/CharDevice.antt =====
-- code/examples/kernel/char_device/char_device.c, and the handlers of
-- code/examples/kernel/miscdevice/misc_device.c, which are the same.
pub mod Buffer
pub mod Lifecycle
pub mod Register
use embedded_linux_bsp.Common.{
  ℕ, ◌≡◌, refl, true, false, Bool, ◌==◌, List, [], replicate, ltb, min, ℤ, pos, if◌then◌else◌,
  arith,
}
use embedded_linux_bsp.Common.World.{
  Result, ok, err, World, Run, pure, ◌>>=◌, ◌>>◌, attempt, ask, hold, give_back, or_undo,
}
use embedded_linux_bsp.Common.Ledger.{Resource}
use embedded_linux_bsp.Driver.User.{efault, UserCopy}

abbrev pub buffer_len : ℕ
buffer_len = 128

-- `buffer` and `buffer_size`
pub record Device : Type 0 where
  pub buffer : List ℕ
  pub buffer_size : ℕ

-- the static variables at the start
abbrev pub fresh_device : Device
fresh_device = record { buffer = replicate buffer_len 0; buffer_size = 0 }

-- It prints, and returns 0.
unfoldable pub my_open : Device → Device × ℤ
my_open dev = (dev, pos 0)

-- It prints, and returns 0.
unfoldable pub my_release : Device → Device × ℤ
my_release dev = (dev, pos 0)

module _ (u : UserCopy) where
  -- The bytes delivered to the process, and the return value. The file position is not looked at,
  -- and the device does not change.
  pub my_read : Device → ℕ → List ℕ × ℤ
  my_read dev count =
      let len = min count dev.buffer_size in
      let (delivered, left) = u.copy_to_user dev.buffer len in
      if ltb 0 left then (delivered, efault) else (delivered, pos len)

  -- The device after the call, and the return value; `from` is the memory at the process's pointer.
  pub my_write : Device → List ℕ → ℕ → Device × ℤ
  my_write dev from count =
      let len = min count buffer_len in
      let (filled, left) = u.copy_from_user dev.buffer from len in
      if ltb 0 left
      then (record dev { buffer = filled }, efault)
      else (record dev { buffer = filled; buffer_size = len }, pos len)

-- No command does anything; the memory at `arg` stays as it was.
unfoldable pub my_ioctl : Device → ℕ → List ℕ → Device × List ℕ × ℤ
my_ioctl dev cmd arg = (dev, arg, pos 0)

-- `struct file_operations`, as far as the drivers fill it in
pub record FileOperations : Type 0 where
  pub open_file : Device → Device × ℤ
  pub release : Device → Device × ℤ
  pub read : Device → ℕ → List ℕ × ℤ
  pub write : Device → List ℕ → ℕ → Device × ℤ
  pub unlocked_ioctl : Device → ℕ → List ℕ → Device × List ℕ × ℤ

abbrev pub my_fops : UserCopy → FileOperations
my_fops u = record {
  open_file = my_open;
  release = my_release;
  read = my_read u;
  write = my_write u;
  unlocked_ioctl = my_ioctl;
}

-- What `my_init` takes from the kernel.
pub data Object : Type 0 where
  chrdev_region cdev class device : Object

abbrev pub place : Object → ℕ
place chrdev_region = 0
place cdev = 1
place class = 2
place device = 3

abbrev pub same_object : Object → Object → Bool
same_object a b = place a == place b

pub same_object_refl : (a : Object) → same_object a a ≡ true
same_object_refl a = ground arith

instance abbrev pub object_resource : Resource Object
object_resource = record { same = same_object; same_refl = same_object_refl }

-- The kernel's side of `my_init`, as a parameter.
pub record Kernel : Type 0 where
  pub alloc_chrdev_region : ℕ → Result (Unit {0})
  pub cdev_add : ℕ → Result (Unit {0})
  pub class_create : ℕ → Result (Unit {0})
  pub device_create : ℕ → Result (Unit {0})

abbrev pub Session : Type 0
Session = World Object (Unit {0})

abbrev pub Action : Type 0 → Type 0
Action = Run Object (Unit {0})

module _ (k : Kernel) where
  -- The answer of `device_create` is not looked at.
  create_device : Action (Unit {0})
  create_device = do
    created ← attempt (ask k.device_create)
    elim created [ err _ ↦ pure tt | ok _ ↦ hold device ]

  create_class : Action (Unit {0})
  create_class = do ask k.class_create; hold class; create_device

  -- the labels `err_class` and `err_cdev` undo the steps before them
  pub my_init : Action (Unit {0})
  my_init = do
    ask k.alloc_chrdev_region
    or_undo chrdev_region (do ask k.cdev_add; or_undo cdev create_class)

-- `device_destroy` looks the device up, and does nothing if there is none.
pub destroy_device : Bool → Action (Unit {0})
destroy_device true = give_back device
destroy_device false = pure tt

-- `my_exit`; `created` says whether `device_create` had succeeded.
pub my_exit : Bool → Action (Unit {0})
my_exit created = do
  destroy_device created
  give_back class
  give_back cdev
  give_back chrdev_region
