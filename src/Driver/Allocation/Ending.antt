-- ===== src/Driver/Allocation/Ending.antt =====
-- What the allocation examples hold at their end.
use embedded_linux_bsp.Common.{
  ℕ, ◌+◌, ◌*◌, ◌≡◌, ◌≢◌, refl, ◌∙◌, ap, ◌⊎◌, inl, inr, Bool-cases, ◌==◌, arith,
}
use embedded_linux_bsp.Common.World.{
  err, ok, World, pure, fail, ◌>>=◌, ask, hold, give_back, or_undo,
}
use embedded_linux_bsp.Common.Ledger.{acquire, release, release-acquire}
use embedded_linux_bsp.Driver.User.{enomem}
use embedded_linux_bsp.Driver.Allocation.{
  Allocator, Memory, for_kfree, for_vfree, for_dma_free, memory_resource, alloc_vmem,
  mem_alloc_init, mem_alloc_exit, buf_size, dma_example_init, dma_example_exit,
}

alloc_vmem_ends :
    (k : Allocator) (kmem : ℕ) (w : World Memory (Unit {0}))
    → let (ret, after) = alloc_vmem k kmem w in
      let vmem = k.vmalloc w.tick (1024 * 1024) in
      ((vmem ≡ 0) × (ret ≡ err enomem) × (after.ledger ≡ w.ledger))
      ⊎ ((vmem ≢ 0)
          × (ret ≡ ok (record { kmem = kmem; vmem = vmem }))
          × (after.ledger ≡ acquire (for_vfree vmem) w.ledger))
unfolding alloc_vmem ◌>>=◌ ask fail hold pure
alloc_vmem_ends k kmem w = elim (Bool-cases (k.vmalloc w.tick (1024 * 1024) == 0)) [
  | inl none ↦ rw (none) (inl (ground (arith, none), refl, refl))
  | inr some ↦ rw (some, ◌>>=◌) (inr (ground (arith, some), refl, refl))
]

-- Loading the allocation example fails with -ENOMEM exactly when one of its two allocations returns NULL, and then it
-- holds what it held before; or it keeps the two addresses, and then unloading it gives both back.
pub mem_alloc_ends :
    (k : Allocator) (w : World Memory (Unit {0}))
    → let (ret, loaded) = mem_alloc_init k w in
      let kmem = k.kmalloc w.tick 1024 in
      let vmem = k.vmalloc (w.tick + 1) (1024 * 1024) in
      (((kmem ≡ 0) ⊎ (vmem ≡ 0)) × (ret ≡ err enomem) × (loaded.ledger ≡ w.ledger))
      ⊎ ((kmem ≢ 0)
          × (vmem ≢ 0)
          × (ret ≡ ok (record { kmem = kmem; vmem = vmem }))
          × (loaded.ledger ≡ acquire (for_vfree vmem) (acquire (for_kfree kmem) w.ledger))
          × ((mem_alloc_exit (record { kmem = kmem; vmem = vmem }) loaded).1.ledger ≡ w.ledger))
unfolding mem_alloc_init mem_alloc_exit ◌>>=◌ ask fail give_back or_undo
mem_alloc_ends k w = elim (Bool-cases (k.kmalloc w.tick 1024 == 0)) [
  | inl none ↦ rw (none) (inl (inl (ground (arith, none)), refl, refl))
  | inr some ↦ elim (alloc_vmem_ends k kmem after_kmalloc) [
    | inl (none, q, l) ↦
        rw (some, q, or_undo)
          (inl (inr none, refl, ap (release (for_kfree kmem)) l ∙ release-acquire _ _))
    | inr (both, q, l) ↦
        rw (some, q, or_undo)
          (inr (
            ground (arith, some),
            both,
            refl,
            l,
            ap
                  (λ x.
                    release (for_kfree kmem)
                      (release (for_vfree (k.vmalloc (w.tick + 1) (1024 * 1024))) x))
                  l
                ∙ ap (release (for_kfree kmem)) (release-acquire _ _)
                ∙ release-acquire _ _,
          ))
  ]
]
  where
    kmem : ℕ
    kmem = k.kmalloc w.tick 1024

    after_kmalloc : World Memory (Unit {0})
    after_kmalloc = record w { tick = w.tick + 1; ledger = acquire (for_kfree kmem) w.ledger }

-- The same of the DMA buffer, which is freed with the size and the two addresses that it was allocated with.
pub dma_example_ends :
    (k : Allocator) (w : World Memory (Unit {0}))
    → let (ret, loaded) = dma_example_init k w in
      let buf = k.dma_alloc_coherent w.tick buf_size in
      ((buf.0 ≡ 0) × (ret ≡ err enomem) × (loaded.ledger ≡ w.ledger))
      ⊎ ((buf.0 ≢ 0)
          × (ret ≡ ok buf)
          × (loaded.ledger ≡ acquire (for_dma_free buf_size buf.0 buf.1) w.ledger)
          × ((dma_example_exit buf loaded).1.ledger ≡ w.ledger))
unfolding dma_example_init dma_example_exit ◌>>=◌ ask fail hold pure give_back
dma_example_ends k w = elim (Bool-cases ((k.dma_alloc_coherent w.tick buf_size).0 == 0)) [
  | inl none ↦ rw (none) (inl (ground (arith, none), refl, refl))
  | inr some ↦ rw (some, ◌>>=◌) (inr (ground (arith, some), refl, refl, release-acquire _ _))
]
