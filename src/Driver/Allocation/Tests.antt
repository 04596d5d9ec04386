-- ===== src/Driver/Allocation/Tests.antt =====
-- The allocation examples on an allocator that has room only for the small allocation.
use embedded_linux_bsp.Common.{◌≡◌, ◌≢◌, ◌⊎◌, []}
use embedded_linux_bsp.Common.World.{err, ok, World}
use embedded_linux_bsp.Common.Ledger.{acquire}
use embedded_linux_bsp.Driver.User.{enomem}
use embedded_linux_bsp.Driver.Allocation.{
  Allocator, Memory, for_kfree, for_vfree, memory_resource, mem_alloc_init, mem_alloc_exit,
}
use embedded_linux_bsp.Driver.Allocation.Ending.{mem_alloc_ends}

abbrev small : Allocator
small = record { kmalloc = λ t n. 4096; vmalloc = λ t n. 0; dma_alloc_coherent = λ t n. (8192, 0) }

abbrev begin : World Memory (Unit {0})
begin = record { tick = 0; ledger = record { live = []; faults = 0 }; out = [] }

mem_alloc_ends_example :
    (((small.kmalloc 0 1024 ≡ 0) ⊎ (small.vmalloc 1 1048576 ≡ 0))
      × ((mem_alloc_init small begin).0 ≡ err enomem)
      × ((mem_alloc_init small begin).1.ledger ≡ begin.ledger))
    ⊎ ((small.kmalloc 0 1024 ≢ 0)
        × (small.vmalloc 1 1048576 ≢ 0)
        × ((mem_alloc_init small begin).0 ≡ ok (record { kmem = 4096; vmem = 0 }))
        × ((mem_alloc_init small begin).1.ledger
            ≡ acquire (for_vfree 0) (acquire (for_kfree 4096) begin.ledger))
        × ((mem_alloc_exit
              (record { kmem = 4096; vmem = 0 })
              (mem_alloc_init small begin).1).1.ledger
            ≡ begin.ledger))
mem_alloc_ends_example = mem_alloc_ends small begin
