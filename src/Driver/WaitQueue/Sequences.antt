-- ===== src/Driver/WaitQueue/Sequences.antt =====
-- A writer and a reader that come one after the other, and two readers that one write wakes.
use embedded_linux_bsp.Common.{
  ℕ, ◌≤◌, ◌<◌, ◌≡◌, ◌≢◌, refl, sym, ◌∙◌, ap, false, ◌==◌, min, none, some, List, [], ◌∷◌, ◌++◌,
  length, take, drop, length-take, take-append_short, take-take, arith,
}
use embedded_linux_bsp.Driver.User.{UserCopy, IsUserCopy}
use embedded_linux_bsp.Driver.WaitQueue.{
  Shared, idle, waiting, woken, measured, delivered, filling, filled, waking, read_done, wrote,
  System, turn, rouse, roused, Move, call_read, call_write, go, move, run,
}
use embedded_linux_bsp.Driver.WaitQueue.Two.{Two, swap, call_at, go_at, wake_at}

-- The moves of a write and of a read that nothing comes between.
abbrev pub whole_write : ℕ → List ℕ → ℕ → List (ℕ × Move)
whole_write q from count = (q, call_write from count) ∷ (q, go) ∷ (q, go) ∷ (q, go) ∷ []

abbrev pub whole_read : ℕ → ℕ → List (ℕ × Move)
whole_read r count = (r, call_read count) ∷ (r, go) ∷ (r, go) ∷ (r, go) ∷ (r, go) ∷ []

-- Two woken one after the other, and then read one after the other.
abbrev pub both_reads : ℕ → ℕ → List (ℕ × Move)
both_reads q r = (q, go) ∷ (r, go) ∷ (q, go) ∷ (q, go) ∷ (q, go) ∷ (r, go) ∷ (r, go) ∷ (r, go) ∷ []

is_empty : (l : List ℕ) → length l ≡ 0 → l ≡ []
is_empty [] e = refl
is_empty (x ∷ l) e = absurd (ground (arith, e))

module _ (u : UserCopy) (law : IsUserCopy u) where
  -- A process writes at least one byte and another then reads, with copies that leave nothing uncopied: the read
  -- returns the first of the bytes written, as many as it asked for, as were written and as the buffer has, and
  -- nothing is available after it.
  pub write-read :
      (q r : ℕ) (s : System) (from : List ℕ) (n count : ℕ)
      → let len = min n 128 in
        let got = min count len in
        let (buffer, left) = u.copy_from_user s.shared.buffer from len in
        q ≢ r
        → s.procs q ≡ idle
        → s.procs r ≡ idle
        → length s.shared.buffer ≡ 128
        → 0 < n
        → len ≤ length from
        → left ≡ 0
        → (u.copy_to_user buffer got).1 ≡ 0
        → let after = run u (whole_write q from n ++ whole_read r count) s in
          (after.shared.data_available ≡ 0)
          × (after.log ≡ read_done count got (take got from) ∷ wrote len ∷ s.log)
  unfolding run turn move roused rouse
  write-read q r s from n count apart qi ri room some_bytes enough all_in all_out =
      let t0 : Two q r s s.shared idle idle s.log = record {
        shared = refl;
        left = qi;
        right = ri;
        history = refl;
      } in
      let t1 = call_at u apart (filling from n) t0 in
      let t2 = go_at u apart (filling from n) (filled len) sh1 none (rw (all_in) refl) refl t1 in
      let t2' = go_at u apart (filled len) waking sh2 (some (wrote len)) refl refl t2 in
      let t3 = swap (wake_at u apart t2') in
      let t4 = call_at u other (waiting count) t3 in
      let t5 = go_at u other (waiting count) (woken count) sh2 none (rw some_len refl) refl t4 in
      let t6 = go_at u other (woken count) (measured count got) sh2 none refl refl t5 in
      let t7 =
        go_at u other (measured count got) (delivered count got (u.copy_to_user bytes got).0) sh2
          none (rw (all_out) refl) refl t6 in
      let t8 =
        go_at u other (delivered count got (u.copy_to_user bytes got).0) idle _
          (some (read_done count got (u.copy_to_user bytes got).0)) refl refl t7 in
      (
        ap (λ (x : Shared). x.data_available) t8.shared,
        t8.history ∙ ap (λ b. read_done count got b ∷ wrote len ∷ s.log) content,
      )
    where
      len : ℕ
      len = min n 128

      got : ℕ
      got = min count len

      other : r ≢ q
      other e = apart (sym e)

      bytes : List ℕ
      bytes = (u.copy_from_user s.shared.buffer from len).0

      sh1 : Shared
      sh1 = record (s.shared) { buffer = bytes }

      sh2 : Shared
      sh2 = record sh1 { data_available = len }

      some_len : (len == 0) ≡ false
      some_len = ground (arith, some_bytes)

      held : length bytes ≡ 128
      held = omega (arith, law.keeps_length s.shared.buffer from len (omega (arith, room)), room)

      content : (u.copy_to_user bytes got).0 ≡ take got from
      content =
          law.copies_to bytes got (omega (arith, held)) all_out
          ∙ ap (take got)
              (law.copies_from s.shared.buffer from len (omega (arith, room)) enough all_in)
          ∙ take-append_short got (take len from) (drop len s.shared.buffer)
              (omega (arith, length-take {0} len from))
          ∙ take-take got len from (omega arith)

  -- Two readers are in `wait_event`, about to look at its condition, there are bytes, and both look before either has
  -- read: the one that comes second returns 0, which a process takes for the end of the file, although it was to wait
  -- for data. The first one's copy leaves nothing uncopied.
  pub woken_twice :
      (q r : ℕ) (s : System) (count asked : ℕ)
      → let got = min count s.shared.data_available in
        let (bytes, left) = u.copy_to_user s.shared.buffer got in
        q ≢ r
        → s.procs q ≡ waiting count
        → s.procs r ≡ waiting asked
        → 0 < s.shared.data_available
        → left ≡ 0
        → (run u (both_reads q r) s).log ≡ read_done asked 0 [] ∷ read_done count got bytes ∷ s.log
  unfolding run turn move roused rouse
  woken_twice q r s count asked apart qi ri ready all_out =
      let t0 : Two q r s s.shared (waiting count) (waiting asked) s.log = record {
        shared = refl;
        left = qi;
        right = ri;
        history = refl;
      } in
      let t1 =
        swap
          (go_at u apart (waiting count) (woken count) s.shared none (rw ready_now refl) refl t0) in
      let t2 =
        swap
          (go_at u other (waiting asked) (woken asked) s.shared none (rw ready_now refl) refl t1) in
      let t3 = go_at u apart (woken count) (measured count got) s.shared none refl refl t2 in
      let t4 =
        go_at u apart (measured count got) (delivered count got bytes) s.shared none
          (rw (all_out) refl) refl t3 in
      let t5 = swap (
        go_at u apart (delivered count got bytes) idle taken (some (read_done count got bytes)) refl
          refl t4) in
      let t6 = go_at u other (woken asked) (measured asked (min asked 0)) taken none refl refl t5 in
      let t7 =
        go_at u other (measured asked (min asked 0))
          (delivered asked (min asked 0) (u.copy_to_user s.shared.buffer (min asked 0)).0) taken
          none (rw (no_left) refl) refl t6 in
      let t8 =
        go_at u other
          (delivered asked (min asked 0) (u.copy_to_user s.shared.buffer (min asked 0)).0) idle
          taken
          (some (read_done asked (min asked 0) (u.copy_to_user s.shared.buffer (min asked 0)).0))
          refl refl t7 in
      t8.history
      ∙ ap
          (λ (n : ℕ).
            read_done asked n (u.copy_to_user s.shared.buffer n).0
            ∷ read_done count got bytes
            ∷ s.log)
          (omega arith)
      ∙ ap (λ b. read_done asked 0 b ∷ read_done count got bytes ∷ s.log)
          (is_empty _ (omega (arith, law.adds_up s.shared.buffer 0 (omega arith))))
    where
      got : ℕ
      got = min count s.shared.data_available

      bytes : List ℕ
      bytes = (u.copy_to_user s.shared.buffer got).0

      other : r ≢ q
      other e = apart (sym e)

      taken : Shared
      taken = record (s.shared) { data_available = 0 }

      ready_now : (s.shared.data_available == 0) ≡ false
      ready_now = ground (arith, ready)

      no_left : (u.copy_to_user s.shared.buffer (min asked 0)).1 ≡ 0
      no_left = omega (arith, law.adds_up s.shared.buffer (min asked 0) (omega arith))
