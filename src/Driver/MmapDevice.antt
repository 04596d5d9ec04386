-- ===== src/Driver/MmapDevice.antt =====
-- code/examples/memory/mmap_driver_example/kernel/mmap_dev.c: one page that processes map.
pub mod Lifecycle
pub mod Mapping
pub mod Page
use embedded_linux_bsp.Common.{
  ℕ, ◌+◌, ◌-◌, ◌%◌, ◌^◌, ◌≡◌, refl, true, false, Bool, ◌==◌, ◌&&◌, ltb, min, Option, none, some,
  List, [], ◌∷◌, ℤ, pos, if◌then◌else◌, arith,
}
use embedded_linux_bsp.Common.World.{
  Result, ok, err, World, Run, pure, ◌>>=◌, ◌>>◌, attempt, ask, hold, give_back,
}
use embedded_linux_bsp.Common.Ledger.{Resource}
use embedded_linux_bsp.Driver.User.{enomem, efault, einval, eagain, UserCopy}

abbrev pub page_size : ℕ
page_size = 4096

-- `shared_page`, by its frame number, and `kaddr`
pub record State : Type 0 where
  pub shared_page : Option ℕ
  pub kaddr : Option ℕ

-- both null
abbrev pub no_page : State
no_page = record { shared_page = none; kaddr = none }

-- The bytes delivered, and the return value; `memory` is what an address shows of the page.
pub my_read : UserCopy → (memory : ℕ → List ℕ) → State → ℕ → List ℕ × ℤ
my_read u memory st count = elim st.kaddr [
  | none ↦ ([], einval)
  | some addr ↦
      let len = min count page_size in
      let (delivered, left) = u.copy_to_user (memory addr) len in
      if ltb 0 left then (delivered, efault) else (delivered, pos len)
]

-- `struct vm_area_struct`: `fixed` says whether `my_mmap` has set its flags; `mapped` is what
-- `remap_pfn_range` has put there, as address, frame number and size.
pub record Area : Type 0 where
  pub vm_start : ℕ
  pub vm_end : ℕ
  pub fixed : Bool
  pub mapped : List (ℕ × (ℕ × ℕ))

-- `vm_end - vm_start`, of two `unsigned long`
unfoldable pub vsize : Area → ℕ
vsize vma = (vma.vm_end + 2 ^ 64 - vma.vm_start) % 2 ^ 64

-- `remapped` is the answer of `remap_pfn_range`.
unfoldable pub my_mmap : (remapped : Bool) → State → Area → Area × ℤ
my_mmap remapped st vma = elim st.shared_page [
  | none ↦ (vma, einval)
  | some pfn ↦
      if ltb page_size (vsize vma)
      then (vma, einval)
      else (if remapped
          then (
            record vma { fixed = true; mapped = (vma.vm_start, (pfn, vsize vma)) ∷ vma.mapped },
            pos 0,
          )
          else (record vma { fixed = true }, eagain))
]

-- What `my_init` takes from the kernel.
pub data Object : Type 0 where
  page : ℕ → Object
  miscdevice : Object

abbrev pub same_object : Object → Object → Bool
same_object (page a) (page b) = a == b
same_object (page a) miscdevice = false
same_object miscdevice (page b) = false
same_object miscdevice miscdevice = true

pub same_object_refl : (a : Object) → same_object a a ≡ true
same_object_refl (page a) = ground arith
same_object_refl miscdevice = refl

instance abbrev pub object_resource : Resource Object
object_resource = record { same = same_object; same_refl = same_object_refl }

abbrev pub Session : Type 0
Session = World Object (Unit {0})

abbrev pub Action : Type 0 → Type 0
Action = Run Object (Unit {0})

-- The kernel's side, as a parameter.
pub record Kernel : Type 0 where
  pub alloc_page : ℕ → Result ℕ
  pub page_address : ℕ → Option ℕ
  pub misc_register : ℕ → Result (Unit {0})

module _ (k : Kernel) where
  -- from `misc_register` on
  register : ℕ → ℕ → Action (State × ℤ)
  register pfn addr = do
    answer ← attempt (ask k.misc_register)
    elim answer [
      | err e ↦ do give_back (page pfn); pure (no_page, e)
      | ok _ ↦ do
        hold miscdevice
        pure (record { shared_page = some pfn; kaddr = some addr }, pos 0)
    ]

  -- from `page_address` on: without an address the page is freed, but `shared_page` still names it
  address_page : ℕ → Action (State × ℤ)
  address_page pfn = elim (k.page_address pfn) [
    | none ↦ do give_back (page pfn); pure (record { shared_page = some pfn; kaddr = none }, enomem)
    | some addr ↦ register pfn addr
  ]

  -- The static variables after the call, and the return value.
  pub my_init : Action (State × ℤ)
  my_init = do
    answer ← attempt (ask k.alloc_page)
    elim answer [ err _ ↦ pure (no_page, enomem) | ok pfn ↦ do hold (page pfn); address_page pfn ]

pub my_exit : State → Action State
my_exit st = do
  give_back miscdevice
  elim st.shared_page [ none ↦ pure st | some pfn ↦ do give_back (page pfn); pure no_page ]
