-- ===== src/Driver/WaitQueue/Sleepers.antt =====
-- The readers on the queue, and the `wake_up` that takes them off it.
use embedded_linux_bsp.Common.{
  ℕ, ◌<◌, ◌≡◌, ◌≢◌, refl, sym, ◌∙◌, ap, ◌⊎◌, inl, inr, Bool-cases, ◌==◌, ==_refl, ltb, min, Option,
  none, some, List, [], ◌∷◌, arith,
}
use embedded_linux_bsp.Driver.User.{UserCopy}
use embedded_linux_bsp.Driver.WaitQueue.{
  buffer_len, Shared, At, idle, waiting, asleep, woken, measured, delivered, filling, filled,
  waking, Event, read_done, System, start, turn, rouse, wake_up, roused, Move, call_read,
  call_write, go, call, update, after_turn, move, run,
}
use embedded_linux_bsp.Driver.WaitQueue.Two.{Two, swap, wake_at}
use embedded_linux_bsp.Driver.WaitQueue.Latest.{latest, run-IsLatest, four_turns, goes_on}

-- While a reader sleeps and there are bytes for it, some writer is about to call `wake_up`.
abbrev pub IsWatched : System → Type 0
IsWatched s =
    (r count : ℕ)
    → s.procs r ≡ asleep count
    → 0 < s.shared.data_available
    → (p : ℕ) × (s.procs p ≡ waking)

rouse-awake : (x : At) (count : ℕ) → rouse x ≢ asleep count
unfolding rouse
rouse-awake idle count e = cc e
rouse-awake (waiting c) count e = cc e
rouse-awake (asleep c) count e = cc e
rouse-awake (woken c) count e = cc e
rouse-awake (measured c len) count e = cc e
rouse-awake (delivered c len bytes) count e = cc e
rouse-awake (filling from c) count e = cc e
rouse-awake (filled len) count e = cc e
rouse-awake waking count e = cc e

module _ (s : System) (h : IsWatched s) (q : ℕ) where
  -- A step that puts no process to sleep while there are bytes, and is not a `wake_up`.
  keep :
      (x : At) (sh : Shared) (e : Option Event)
      → ((count : ℕ) → x ≡ asleep count → 0 < sh.data_available → ⊥)
      → s.procs q ≢ waking
      → (0 < sh.data_available → 0 < s.shared.data_available)
      → IsWatched (after_turn s q (some (sh, x, e)))
  keep x sh e awake other there r count at some_bytes = elim (Bool-cases (r == q)) [
    | inl same ↦ absurd (awake count (rw same at at) some_bytes)
    | inr apart ↦
        let (p, w) = h r count (rw apart at at) (there some_bytes) in
        (
          p,
          elim (Bool-cases (p == q)) [
            | inl same ↦
                let e : p ≡ q = ground (arith, same) in absurd (other (ap s.procs (sym e) ∙ w))
            | inr ne ↦ rw ne w
          ],
        )
  ]

  module _ (u : UserCopy) where
    turn-IsWatched :
        (x : At)
        → s.procs q ≡ x
        → IsWatched (after_turn (record s { procs = roused x s.procs }) q (turn u s.shared x))
    unfolding turn roused wake_up
    turn-IsWatched idle here = h
    turn-IsWatched (waiting count) here = elim (Bool-cases (s.shared.data_available == 0)) [
      | inl e ↦ rw e (
          keep (asleep count) s.shared none
            (λ c same some_bytes. absurd (ground (arith, e, some_bytes))) (λ w. cc (here, w))
            (λ z. z))
      | inr e ↦
          rw e (keep (woken count) s.shared none (λ c same z. cc same) (λ w. cc (here, w)) (λ z. z))
    ]
    turn-IsWatched (asleep count) here = h
    turn-IsWatched (woken count) here =
        keep _ s.shared none (λ c same z. cc same) (λ w. cc (here, w)) (λ z. z)
    turn-IsWatched (measured count len) here =
        elim (Bool-cases (ltb 0 (u.copy_to_user s.shared.buffer len).1)) [
          | inl e ↦ rw e (keep _ s.shared none (λ c same z. cc same) (λ w. cc (here, w)) (λ z. z))
          | inr e ↦ rw e (keep _ s.shared none (λ c same z. cc same) (λ w. cc (here, w)) (λ z. z))
        ]
    turn-IsWatched (delivered count len bytes) here =
        keep _ (record (s.shared) { data_available = 0 }) none (λ c same z. cc same)
          (λ w. cc (here, w)) (λ z. absurd (ground (arith, z)))
    turn-IsWatched (filling from count) here =
        elim (Bool-cases (ltb 0 (u.copy_from_user s.shared.buffer from (min count buffer_len)).1)) [
          | inl e ↦ rw e (keep _ s.shared none (λ c same z. cc same) (λ w. cc (here, w)) (λ z. z))
          | inr e ↦ rw e (keep _ s.shared none (λ c same z. cc same) (λ w. cc (here, w)) (λ z. z))
        ]
    turn-IsWatched (filled len) here = λ r count at some_bytes. (q, rw (==_refl q) refl)
    turn-IsWatched waking here = λ r count at some_bytes. elim (Bool-cases (r == q)) [
      | inl same ↦ absurd (let e : idle ≡ asleep count = rw same at at in cc e)
      | inr apart ↦ absurd (rouse-awake (s.procs r) count (rw apart at at))
    ]

    -- A process that is in a call stays where it is.
    stays : (x : At) → s.procs q ≡ x → IsWatched (record s { procs = update s.procs q x })
    stays x here r count at some_bytes =
        let (p, w) = h r count (still r (asleep count) at) some_bytes in
        (
          p,
          elim (Bool-cases (p == q)) [
            | inl same ↦
                let e : p ≡ q = ground (arith, same) in rw same (sym here ∙ ap s.procs (sym e) ∙ w)
            | inr apart ↦ rw apart w
          ],
        )
      where
        still : (r : ℕ) (y : At) → update s.procs q x r ≡ y → s.procs r ≡ y
        still r y at = elim (Bool-cases (r == q)) [
          | inl same ↦ let e : r ≡ q = ground (arith, same) in ap s.procs e ∙ here ∙ (rw same at at)
          | inr apart ↦ rw apart at at
        ]

    call-IsWatched :
        (x y : At)
        → s.procs q ≡ x
        → ((count : ℕ) → y ≢ asleep count)
        → IsWatched (record s { procs = update s.procs q (call x y) })
    unfolding call
    call-IsWatched idle y here awake =
        keep y s.shared none (λ c same z. awake c same) (λ w. cc (here, w)) (λ z. z)
    call-IsWatched (waiting c) y here awake = stays _ here
    call-IsWatched (asleep c) y here awake = stays _ here
    call-IsWatched (woken c) y here awake = stays _ here
    call-IsWatched (measured c len) y here awake = stays _ here
    call-IsWatched (delivered c len bytes) y here awake = stays _ here
    call-IsWatched (filling from c) y here awake = stays _ here
    call-IsWatched (filled len) y here awake = stays _ here
    call-IsWatched waking y here awake = stays _ here

    move-IsWatched : (m : Move) → IsWatched (move u s q m)
    unfolding move
    move-IsWatched (call_read count) = call-IsWatched (s.procs q) (waiting count) refl (λ c e. cc e)
    move-IsWatched (call_write from count) =
        call-IsWatched (s.procs q) (filling from count) refl (λ c e. cc e)
    move-IsWatched go = turn-IsWatched (s.procs q) refl

module _ (u : UserCopy) where
  run-IsWatched : (ms : List (ℕ × Move)) (s : System) → IsWatched s → IsWatched (run u ms s)
  unfolding run
  run-IsWatched [] s h = h
  run-IsWatched ((q, m) ∷ ms) s h = run-IsWatched ms (move u s q m) (move-IsWatched s h q u m)

  start-IsWatched : IsWatched start
  start-IsWatched r count at some_bytes = cc at

  -- After the `wake_up` of the process `p`, the reader `q` that slept looks at the condition.
  woken_up :
      (s : System) (p q count : ℕ)
      → s.procs p ≡ waking
      → s.procs q ≡ asleep count
      → Two q p (move u s p go) s.shared (waiting count) idle s.log
  unfolding rouse
  woken_up s p q count there here = swap (
      wake_at u {q = p} {r = q}
        (λ e. let w : s.procs q ≡ waking = ap s.procs (sym e) ∙ there in cc (w, here))
        (record { shared = refl; left = there; right = here; history = refl }))

  -- Start the driver, let any processes make any moves, and look at a reader that sleeps on the queue, whose copy leaves
  -- nothing uncopied. Either the last read or write that took effect was a read or a write of nothing, or there was
  -- none. Or it was a write of at least one byte: then some writer is just before its `wake_up`, and once it has called
  -- it, four turns of the reader end its read, which delivers as many bytes of the buffer as it asked for and as were
  -- written, and nothing is available after it.
  pub asleep-run :
      (ms : List (ℕ × Move)) (q count : ℕ)
      → let s = run u ms start in
        let n = min count (latest s.log) in
        let (bytes, left) = u.copy_to_user s.shared.buffer n in
        s.procs q ≡ asleep count
        → left ≡ 0
        → (latest s.log ≡ 0)
          ⊎ ((0 < latest s.log)
              × (p : ℕ) × (s.procs p ≡ waking)
              × let after = run u ((p, go) ∷ four_turns q) s in
                (after.log ≡ read_done count n bytes ∷ s.log) × (after.shared.data_available ≡ 0))
  unfolding run
  asleep-run ms q count here all = elim (Bool-cases (ltb 0 (latest s.log))) [
    | inr e ↦ inl (ground (arith, e))
    | inl e ↦
        let some_bytes : 0 < latest s.log = ground (arith, e) in
        let there : 0 < s.shared.data_available = rw same some_bytes in
        let (p, w) = run-IsWatched ms start start-IsWatched q count here there in
        let t = woken_up s p q count w here in
        let (done, gone) =
          goes_on u (move u s p go) q count t.left (rw t.shared there)
            (rw t.shared (rw same all)) in
        inr (
          some_bytes,
          p,
          w,
          (
            done
                ∙ ap (λ sh. read_of sh ∷ (move u s p go).log) t.shared
                ∙ ap (λ log. read_of s.shared ∷ log) t.history
                ∙ rw same refl,
            gone,
          ),
        )
  ]
    where
      s : System
      s = run u ms start

      same : s.shared.data_available ≡ latest s.log
      same = run-IsLatest u ms start refl

      read_of : Shared → Event
      read_of sh =
          let n = min count sh.data_available in read_done count n (u.copy_to_user sh.buffer n).0
