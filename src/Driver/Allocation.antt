-- ===== src/Driver/Allocation.antt =====
-- code/examples/memory/kmalloc_vs_vmalloc/mem_alloc.c, and
-- code/examples/memory/dma_alloc_coherent/dma_alloc.c: what they take when they are loaded, and give back.
pub mod Ending
mod Tests
use embedded_linux_bsp.Common.{ℕ, ◌*◌, ◌≡◌, true, Bool, ◌==◌, ◌&&◌, ℤ, if◌then◌else◌, arith}
use embedded_linux_bsp.Common.World.{
  ok, World, Run, pure, fail, ◌>>=◌, ◌>>◌, ask, hold, give_back, or_undo,
}
use embedded_linux_bsp.Common.Ledger.{Resource}
use embedded_linux_bsp.Driver.User.{enomem}

-- The kernel's allocators, as a parameter: by the moment and the size, an address, 0 for NULL.
pub record Allocator : Type 0 where
  pub kmalloc : ℕ → ℕ → ℕ
  pub vmalloc : ℕ → ℕ → ℕ
  -- the address for the processor, and the one for the device
  pub dma_alloc_coherent : ℕ → ℕ → ℕ × ℕ

-- What was allocated, by how it must be freed.
pub data Memory : Type 0 where
  for_kfree : ℕ → Memory
  for_vfree : ℕ → Memory
  -- size, `cpu_addr`, `dma_addr`
  for_dma_free : ℕ → ℕ → ℕ → Memory

abbrev pub same_memory : Memory → Memory → Bool
same_memory (for_kfree a) (for_kfree b) = a == b
same_memory (for_vfree a) (for_vfree b) = a == b
same_memory (for_dma_free n a d) (for_dma_free m b e) = n == m && a == b && d == e
same_memory _ _ = Bool.false

pub same_memory_refl : (a : Memory) → same_memory a a ≡ true
same_memory_refl (for_kfree a) = ground arith
same_memory_refl (for_vfree a) = ground arith
same_memory_refl (for_dma_free n a d) = ground arith

instance abbrev pub memory_resource : Resource Memory
memory_resource = record { same = same_memory; same_refl = same_memory_refl }

abbrev pub Action : Type 0 → Type 0
Action = Run Memory (Unit {0})

-- the static `kmem` and `vmem`
pub record State : Type 0 where
  pub kmem : ℕ
  pub vmem : ℕ

pub alloc_vmem : Allocator → ℕ → Action State
alloc_vmem k kmem = do
  vmem ← ask (λ t. ok (k.vmalloc t (1024 * 1024)))
  if vmem == 0
      then fail enomem
      else (do hold (for_vfree vmem); pure (record { kmem = kmem; vmem = vmem }))

pub mem_alloc_init : Allocator → Action State
mem_alloc_init k = do
  kmem ← ask (λ t. ok (k.kmalloc t 1024))
  if kmem == 0 then fail enomem else or_undo (for_kfree kmem) (alloc_vmem k kmem)

pub mem_alloc_exit : State → Action (Unit {0})
mem_alloc_exit s = do give_back (for_vfree s.vmem); give_back (for_kfree s.kmem)

abbrev pub buf_size : ℕ
buf_size = 4096

-- the static `cpu_addr` and `dma_addr`
pub dma_example_init : Allocator → Action (ℕ × ℕ)
dma_example_init k = do
  buf ← ask (λ t. ok (k.dma_alloc_coherent t buf_size))
  if buf.0 == 0 then fail enomem else (do hold (for_dma_free buf_size buf.0 buf.1); pure buf)

pub dma_example_exit : ℕ × ℕ → Action (Unit {0})
dma_example_exit buf = give_back (for_dma_free buf_size buf.0 buf.1)
