-- ===== src/Driver/FaultDevice.antt =====
-- code/examples/memory/page_fault_example/kernel/fault_dev.c: a page that the page faults of processes map.
pub mod References
mod Tests
use embedded_linux_bsp.Common.{ℕ, ◌≡◌, true, false, Bool, ◌==◌, ℤ, pos, if◌then◌else◌, arith}
use embedded_linux_bsp.Common.World.{
  Result, ok, World, Run, pure, fail, ◌>>=◌, ◌>>◌, ask, hold, give_back,
}
use embedded_linux_bsp.Common.Ledger.{Resource}
use embedded_linux_bsp.Driver.User.{enomem}

abbrev pub vm_fault_sigbus : ℤ
vm_fault_sigbus = pos 2

-- One reference to the page at an address, and the registered device.
pub data Object : Type 0 where
  page_ref : ℕ → Object
  miscdevice : Object

abbrev pub same_object : Object → Object → Bool
same_object (page_ref p) (page_ref q) = p == q
same_object miscdevice miscdevice = true
same_object _ _ = false

pub same_object_refl : (a : Object) → same_object a a ≡ true
same_object_refl (page_ref p) = ground arith
same_object_refl miscdevice = ground arith

instance abbrev pub object_resource : Resource Object
object_resource = record { same = same_object; same_refl = same_object_refl }

abbrev pub Action : Type 0 → Type 0
Action = Run Object (Unit {0})

-- The kernel's side of `my_init`, as a parameter; `alloc_page` answers with 0 for NULL.
pub record Kernel : Type 0 where
  pub alloc_page : ℕ → ℕ
  pub misc_register : ℕ → Result (Unit {0})

-- A reference is taken, for the kernel to give back when it unmaps the page, and `vmf->page` is
-- the result.
pub my_fault : (fault_page : ℕ) → Action ℕ
my_fault fault_page =
    if fault_page == 0
    then fail vm_fault_sigbus
    else (do hold (page_ref fault_page); pure fault_page)

-- `vma->vm_ops`
pub data VmOps : Type 0 where
  default_ops my_vm_ops : VmOps

pub my_mmap : VmOps → VmOps × ℤ
my_mmap vm_ops = (my_vm_ops, pos 0)

-- the result is `fault_page`
pub my_init : Kernel → Action ℕ
my_init k = do
  fault_page ← ask (λ t. ok (k.alloc_page t))
  if fault_page == 0
      then fail enomem
      else (do hold (page_ref fault_page); ask k.misc_register; hold miscdevice; pure fault_page)

pub my_exit : (fault_page : ℕ) → Action (Unit {0})
my_exit fault_page = do
  give_back miscdevice
  if fault_page == 0 then pure tt else give_back (page_ref fault_page)
