-- ===== src/Driver/MmapUser/Writing.antt =====
-- What the program that maps the page leaves, and what the driver's read gives after it.
use embedded_linux_bsp.Common.{
  ℕ, ◌+◌, ◌≤◌, ◌<◌, ◌^◌, ==_refl, true, ◌≡◌, refl, subst, ◌∙◌, ap, ◌⊎◌, inl, inr, some, List, [],
  ◌∷◌, ◌++◌, length, take, pos, arith,
}
use embedded_linux_bsp.Common.World.{
  Result, Result-cases, ok, World, pure, ◌>>=◌, attempt, ask, emit, hold, give_back,
}
use embedded_linux_bsp.Common.Ledger.{release, release-acquire}
use embedded_linux_bsp.Driver.User.{UserCopy, IsUserCopy}
use embedded_linux_bsp.Driver.User.{einval, eagain}
use embedded_linux_bsp.Driver.MmapDevice.{State, Area, my_read, my_mmap}
use embedded_linux_bsp.Driver.MmapDevice.Mapping.{my_mmap-IsMapped}
use embedded_linux_bsp.Driver.MmapDevice.Page.{snprintf, my_read-snprintf, my_read-at}
use embedded_linux_bsp.Driver.MmapUser.{
  map_size, hexdump_head, c_string, user_text, Object, fd, mapping, object_resource, Kernel,
  show_and_write, main, Frames, prot_read_write, map_shared, store,
}

-- How a run from a world ends: with the memory as it was, or with the text written into the frame that is mapped.
abbrev pub Wrote :
    Kernel → Frames → World Object (List ℕ) → Result (Frames × ℕ) × World Object (List ℕ) → Type 0
Wrote k frames w (ret, after) =
    (after.ledger ≡ w.ledger)
    × (((ret ≡ ok (frames, 1)) × (after.out ≡ w.out))
        ⊎ ((addr frame : ℕ) × (k.mmap (w.tick + 1) 4096 prot_read_write map_shared
              ≡ ok (addr, frame))
            × let page = frames frame in
              (ret ≡ ok (store map_shared frame (snprintf 4096 user_text page) frames, 0))
              × (after.out
                  ≡ (w.out ++ (c_string page ++ 10 ∷ []) ∷ [])
                    ++ hexdump_head (take 64 page) ∷ [])))

pub main-Wrote :
    (k : Kernel) (frames : Frames) (w : World Object (List ℕ)) → Wrote k frames w (main k frames w)
unfolding main show_and_write ◌>>=◌ attempt ask emit hold give_back pure
main-Wrote k frames w = elim (Result-cases (k.open_device w.tick)) [
  | inl (e, q) ↦ rw (q, ◌>>=◌) (refl, inl (refl, refl))
  | inr (_, o) ↦
      rw (o, ◌>>=◌)
        (elim (Result-cases (k.mmap (w.tick + 1) map_size prot_read_write map_shared)) [
          | inl (e, q) ↦ rw (q, ◌>>=◌) (release-acquire fd w.ledger, inl (refl, refl))
          | inr ((addr, frame), q) ↦
              rw (q, ◌>>=◌)
                (
                  ap (release fd) (release-acquire (mapping addr) _) ∙ release-acquire fd w.ledger,
                  inr (addr, frame, refl, (refl, refl)),
                )
        ])
]

-- What a successful `my_mmap` maps is the driver's page.
mapped_page :
    (st : State) (vma after : Area) (pfn frame size : ℕ)
    → vma.vm_start ≤ vma.vm_end
    → vma.vm_end < 2 ^ 64
    → my_mmap true st vma ≡ (after, pos 0)
    → st.shared_page ≡ some pfn
    → after.mapped ≡ (vma.vm_start, (frame, size)) ∷ vma.mapped
    → frame ≡ pfn
mapped_page st vma after pfn frame size ordered below done there at =
    elim (my_mmap-IsMapped true st vma ordered below) [
      | inl (_, (page, (here, (_, shown)))) ↦
          let p : page ≡ pfn = cc (here, there) in
          let l : (my_mmap true st vma).0.mapped ≡ after.mapped = ap (λ r. r.0.mapped) done in
          let f : frame ≡ page = cc (shown, at, l) in f ∙ p
      | inr (inl (refused, _)) ↦ absurd (let e : pos 0 ≡ einval = cc (refused, done) in cc e)
      | inr (inr (refused, _)) ↦ absurd (let e : pos 0 ≡ eagain = cc (refused, done) in cc e)
    ]

-- The driver has its page of 4096 bytes, whose frame its address shows. The kernel hands an area, whose end is not
-- before its start and below 2^64, to `my_mmap`, which returns 0 and maps 4096 bytes; and the kernel answers the
-- process's shared `mmap` with the start of the area and the frame that `my_mmap` has put there. If the process exits
-- with 0, then a read of at most as many bytes as its text has, with a copy that leaves nothing uncopied, returns the
-- first bytes of the text; and the process has given back its mapping and its descriptor.
pub my_read-main :
    (u : UserCopy) (law : IsUserCopy u) (k : Kernel) (frame_of : ℕ → ℕ) (frames after : Frames)
    (w : World Object (List ℕ)) (st : State) (vma mapped : Area) (addr pfn frame count : ℕ)
    → st.shared_page ≡ some pfn
    → st.kaddr ≡ some addr
    → frame_of addr ≡ pfn
    → length (frames pfn) ≡ 4096
    → vma.vm_start ≤ vma.vm_end
    → vma.vm_end < 2 ^ 64
    → my_mmap true st vma ≡ (mapped, pos 0)
    → mapped.mapped ≡ (vma.vm_start, (frame, 4096)) ∷ vma.mapped
    → k.mmap (w.tick + 1) 4096 prot_read_write map_shared ≡ ok (vma.vm_start, frame)
    → (main k frames w).0 ≡ ok (after, 0)
    → count ≤ length user_text
    → (u.copy_to_user (after pfn) count).1 ≡ 0
    → (my_read u (λ a. after (frame_of a)) st count ≡ (take count user_text, pos count))
      × ((main k frames w).1.ledger ≡ w.ledger)
unfolding store
my_read-main u law k frame_of frames after w st vma mapped addr pfn frame count page there shows
      whole ordered below done at answer ran small all =
    let (ledger, how) = main-Wrote k frames w in
    let own : frame ≡ pfn = mapped_page st vma mapped pfn frame 4096 ordered below done page at in
    (
      elim how [
        | inl (failed, _) ↦ absurd (cc (failed, ran))
        | inr (start, f, got, (fine, _)) ↦
            let same : f ≡ pfn = (let g : f ≡ frame = cc (got, answer) in g ∙ own) in
            let wrote : after ≡ store map_shared f (snprintf 4096 user_text (frames f)) frames =
              cc (fine, ran) in
            let text : after pfn ≡ snprintf 4096 user_text (frames pfn) =
              rw (wrote, same, ==_refl pfn) refl in
            my_read-at u (λ a. after (frame_of a)) st addr count there
            ∙ rw (shows, text)
                (my_read-snprintf u law user_text (frames pfn) st addr count there whole
                  (omega arith) small (subst (λ x. (u.copy_to_user x count).1 ≡ 0) text all))
      ],
      ledger,
    )
