-- ===== src/Driver/MmapDevice/Mapping.antt =====
-- What a process can map.
use embedded_linux_bsp.Common.{
  ℕ, ◌-◌, ◌^◌, ◌≤◌, ◌<◌, ◌≡◌, refl, ap, false, Bool, Bool-cases, ltb, ltb→lt, Option-cases, none,
  some, ◌∷◌, ◌⊎◌, inl, inr, pos, arith,
}
use embedded_linux_bsp.Driver.User.{einval, eagain}
use embedded_linux_bsp.Driver.MmapDevice.{State, Area, vsize, my_mmap, page_size}

-- The area as it was, and a part of it at its start, of the size of the area and of one page at most, that
-- shows the driver's page.
abbrev pub IsMapped : State → Area → Area → Type 0
IsMapped st vma after =
    (pfn : ℕ) × ((st.shared_page ≡ some pfn)
      × ((vma.vm_end - vma.vm_start ≤ 4096)
          × (after.mapped ≡ (vma.vm_start, (pfn, vma.vm_end - vma.vm_start)) ∷ vma.mapped)))

-- On an area whose end is not before its start, both below 2^64, `my_mmap` returns 0 and maps the whole area to the
-- driver's page, which is there, the area being no larger than a page; or it returns -EINVAL with the area as it
-- was, because there is no page or the area is larger; or -EAGAIN with nothing mapped, if the kernel
-- refuses the mapping.
pub my_mmap-IsMapped :
    (remapped : Bool) (st : State) (vma : Area)
    → vma.vm_start ≤ vma.vm_end
    → vma.vm_end < 2 ^ 64
    → let (after, ret) = my_mmap remapped st vma in
      ((ret ≡ pos 0) × IsMapped st vma after)
      ⊎ (((ret ≡ einval)
            × ((after ≡ vma) × ((st.shared_page ≡ none) ⊎ (4096 < vma.vm_end - vma.vm_start))))
          ⊎ ((ret ≡ eagain) × ((remapped ≡ false) × (after.mapped ≡ vma.mapped))))
unfolding my_mmap vsize
my_mmap-IsMapped remapped st vma ordered below = elim (Option-cases st.shared_page) [
  | inl q ↦ rw (q, my_mmap) (inr (inl (refl, (refl, inl refl))))
  | inr (pfn, q) ↦ elim (Bool-cases (ltb page_size (vsize vma))) [
    | inl big ↦
        rw (q, my_mmap, big) (inr (inl (refl, (refl, inr (omega (arith, ltb→lt _ _ big, size))))))
    | inr fits ↦ elim (Bool-cases remapped) [
      | inl r ↦
          rw (q, my_mmap, fits, r)
            (inl (
              refl,
              (pfn, (refl, (fit fits, ap (λ n. (vma.vm_start, (pfn, n)) ∷ vma.mapped) size))),
            ))
      | inr r ↦ rw (q, my_mmap, fits, r) (inr (inr (refl, (refl, refl))))
    ]
  ]
]
  where
    size : vsize vma ≡ vma.vm_end - vma.vm_start
    size = omega arith

    fit : ltb page_size (vsize vma) ≡ false → vma.vm_end - vma.vm_start ≤ 4096
    fit q = let small : vsize vma ≤ 4096 = ground (arith, q) in omega (arith, small, size)
