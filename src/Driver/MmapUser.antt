-- ===== src/Driver/MmapUser.antt =====
-- code/examples/memory/mmap_driver_example/userspace/mmap_user.c: a process that maps the page of mmap_dev.c,
-- shows it and writes to it.
pub mod Hexdump
pub mod Writing
mod Tests
use embedded_linux_bsp.Common.{
  ℕ, suc, ◌+◌, ◌-◌, ◌/◌, ◌%◌, ◌≡◌, true, false, Bool, ◌==◌, ltb, List, [], ◌∷◌, ◌++◌, length, take,
  if◌then◌else◌, arith,
}
use embedded_linux_bsp.Common.World.{
  Result, ok, err, Run, pure, ◌>>=◌, ◌>>◌, attempt, ask, emit, hold, give_back,
}
use embedded_linux_bsp.Common.Ledger.{Resource}
use embedded_linux_bsp.Driver.MmapDevice.Page.{snprintf}

abbrev pub map_size : ℕ
map_size = 4096

-- a digit of "%02x"
pub hex_digit : ℕ → ℕ
hex_digit n = if ltb n 10 then n + 48 else n + 87

-- "%02x " of a byte
pub hex_byte : ℕ → List ℕ
hex_byte b = hex_digit (b / 16) ∷ hex_digit (b % 16) ∷ 32 ∷ []

-- the loop of `hexdump_head` from `i` on, over the bytes that are left
pub dump_bytes : (i : ℕ) → List ℕ → List ℕ
dump_bytes i [] = []
dump_bytes i (b ∷ bs) =
    hex_byte b ++ ((if (i + 1) % 16 == 0 then 10 ∷ [] else []) ++ dump_bytes (i + 1) bs)

-- `hexdump_head` of the first `n` bytes, which are given
pub hexdump_head : (p : List ℕ) → List ℕ
hexdump_head p = dump_bytes 0 p ++ (if length p % 16 == 0 then [] else 10 ∷ [])

-- the bytes of "%s"
pub c_string : List ℕ → List ℕ
c_string [] = []
c_string (b ∷ bs) = let rest = c_string bs in if b == 0 then [] else b ∷ rest

-- "hello from userspace via mmap (MAP_SHARED)" and the end of the line
abbrev pub user_text : List ℕ
user_text =
    104 ∷ 101 ∷ 108 ∷ 108 ∷ 111 ∷ 32 ∷ 102 ∷ 114 ∷ 111 ∷ 109 ∷ 32 ∷ 117 ∷ 115 ∷ 101 ∷ 114 ∷ 115
    ∷ 112 ∷ 97 ∷ 99 ∷ 101 ∷ 32 ∷ 118 ∷ 105 ∷ 97 ∷ 32 ∷ 109 ∷ 109 ∷ 97 ∷ 112 ∷ 32 ∷ 40 ∷ 77 ∷ 65 ∷ 80
    ∷ 95 ∷ 83 ∷ 72 ∷ 65 ∷ 82 ∷ 69 ∷ 68 ∷ 41 ∷ 10 ∷ []

-- What the process holds.
pub data Object : Type 0 where
  fd : Object
  mapping : ℕ → Object

abbrev pub same_object : Object → Object → Bool
same_object fd fd = true
same_object (mapping a) (mapping b) = a == b
same_object _ _ = false

pub same_object_refl : (a : Object) → same_object a a ≡ true
same_object_refl fd = ground arith
same_object_refl (mapping a) = ground arith

instance abbrev pub object_resource : Resource Object
object_resource = record { same = same_object; same_refl = same_object_refl }

-- `PROT_READ | PROT_WRITE`, and what else a process can ask for
pub data Protection : Type 0 where
  prot_read prot_read_write : Protection

-- `MAP_SHARED`, and its other
pub data Sharing : Type 0 where
  map_shared map_private : Sharing

-- The bytes of each page frame of the memory.
abbrev pub Frames : Type 0
Frames = ℕ → List ℕ

-- The kernel, as a parameter; `mmap` by the moment, the size, the protection and the sharing. It answers with the
-- address, and the frame that is mapped there.
pub record Kernel : Type 0 where
  pub open_device : ℕ → Result (Unit {0})
  pub mmap : ℕ → ℕ → Protection → Sharing → Result (ℕ × ℕ)

-- A page that is written through a mapping: a private mapping has a copy of its own.
pub store : Sharing → (frame : ℕ) → (page : List ℕ) → Frames → Frames
store map_shared frame page frames f = if f == frame then page else frames f
store map_private frame page frames f = frames f

-- What is printed of the page, message by message.
abbrev pub Action : Type 0 → Type 0
Action = Run Object (List ℕ)

-- `main` on the mapping: the memory afterwards, and the exit status
pub show_and_write : Sharing → (addr frame : ℕ) → Frames → Action (Frames × ℕ)
show_and_write sharing addr frame frames = do
  emit (c_string (frames frame) ++ 10 ∷ [])
  emit (hexdump_head (take 64 (frames frame)))
  give_back (mapping addr)
  give_back fd
  pure (store sharing frame (snprintf map_size user_text (frames frame)) frames, 0)

pub main : Kernel → Frames → Action (Frames × ℕ)
main k frames = do
  opened ← attempt (ask k.open_device)
  elim opened [
    | err _ ↦ pure (frames, 1)
    | ok _ ↦ do
      hold fd
      mapped ← attempt (ask (λ t. k.mmap t map_size prot_read_write map_shared))
      elim mapped [
        | err _ ↦ do give_back fd; pure (frames, 1)
        | ok at ↦ do hold (mapping at.0); show_and_write map_shared at.0 at.1 frames
      ]
  ]
