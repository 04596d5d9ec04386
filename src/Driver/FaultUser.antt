-- ===== src/Driver/FaultUser.antt =====
-- code/examples/memory/page_fault_example/userspace/fault_user.c: a process whose first write to its mapping is a
-- page fault of fault_dev.c.
pub mod Touching
use embedded_linux_bsp.Common.{ℕ, ◌≡◌, true, false, Bool, List, [], ◌∷◌, arith}
use embedded_linux_bsp.Common.World.{
  Result, ok, err, Run, pure, fail, ◌>>=◌, ◌>>◌, attempt, ask, emit, hold, give_back,
}
use embedded_linux_bsp.Common.Ledger.{Resource}
use embedded_linux_bsp.Driver.FaultDevice.References.{Event, fault, unmapped}

abbrev pub map_size : ℕ
map_size = 4096

-- What the process holds of the kernel.
pub data Object : Type 0 where
  fd mapping : Object

abbrev pub same_object : Object → Object → Bool
same_object fd fd = true
same_object mapping mapping = true
same_object _ _ = false

pub same_object_refl : (a : Object) → same_object a a ≡ true
same_object_refl fd = ground arith
same_object_refl mapping = ground arith

instance abbrev pub object_resource : Resource Object
object_resource = record { same = same_object; same_refl = same_object_refl }

-- The kernel, as a parameter: `mmap` by the moment and the size.
pub record Kernel : Type 0 where
  pub open_device : ℕ → Result (Unit {0})
  pub mmap : ℕ → ℕ → Result (Unit {0})

-- What reaches the driver: the page fault, and the end of the mapping.
abbrev pub Action : Type 0 → Type 0
Action = Run Object Event

-- `p[0] = 'A'`, on the page that the fault brings in
pub set_first : ℕ → List ℕ → List ℕ
set_first b [] = []
set_first b (x ∷ p) = b ∷ p

-- `main` on a page that the driver has: the page afterwards, and the exit status
pub main : Kernel → (page : List ℕ) → Action (List ℕ × ℕ)
main k page = do
  opened ← attempt (ask k.open_device)
  elim opened [
    | err _ ↦ pure (page, 1)
    | ok _ ↦ do
      hold fd
      mapped ← attempt (ask (λ t. k.mmap t map_size))
      elim mapped [
        | err _ ↦ pure (page, 1)
        | ok _ ↦ do
          hold mapping
          emit fault
          emit unmapped
          give_back mapping
          give_back fd
          pure (set_first 65 page, 0)
      ]
  ]
