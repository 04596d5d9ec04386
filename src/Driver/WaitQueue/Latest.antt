-- ===== src/Driver/WaitQueue/Latest.antt =====
-- What is available, and the turns of a reader that finds it.
use embedded_linux_bsp.Common.{
  ℕ, ◌+◌, ◌<◌, ◌≡◌, ◌≢◌, false, refl, ap, inl, inr, Bool-cases, ◌==◌, ltb, min, none, some, List,
  [], ◌∷◌, arith,
}
use embedded_linux_bsp.Driver.User.{UserCopy}
use embedded_linux_bsp.Driver.WaitQueue.{
  buffer_len, Shared, At, idle, waiting, asleep, woken, roused, measured, delivered, filling,
  filled, waking, Event, read_done, wrote, failed, System, turn, Move, call_read, call_write, go,
  after_turn, move, run,
}
use embedded_linux_bsp.Driver.WaitQueue.Two.{Two, go_at}

-- How many bytes the last event without an error left available: what was written by a write, nothing by a read.
abbrev pub latest : List Event → ℕ
latest [] = 0
latest (wrote len ∷ es) = len
latest (read_done count len bytes ∷ es) = 0
latest (failed e ∷ es) = latest es

-- The shared variable says what the history says.
abbrev pub IsLatest : System → Type 0
IsLatest s = s.shared.data_available ≡ latest s.log

-- Four turns of one process.
abbrev pub four_turns : ℕ → List (ℕ × Move)
four_turns q = (q, go) ∷ (q, go) ∷ (q, go) ∷ (q, go) ∷ []

module _ (u : UserCopy) where
  turn-IsLatest :
      (s : System) (q : ℕ) (x : At) → IsLatest s → IsLatest (after_turn s q (turn u s.shared x))
  unfolding turn
  turn-IsLatest s q idle h = h
  turn-IsLatest s q (waiting count) h = h
  turn-IsLatest s q (asleep count) h = h
  turn-IsLatest s q (woken count) h = h
  turn-IsLatest s q (measured count len) h =
      elim (Bool-cases (ltb 0 (u.copy_to_user s.shared.buffer len).1)) [
        | inl e ↦ rw e h
        | inr e ↦ rw e h
      ]
  turn-IsLatest s q (delivered count len bytes) h = refl
  turn-IsLatest s q (filling from count) h =
      elim (Bool-cases (ltb 0 (u.copy_from_user s.shared.buffer from (min count buffer_len)).1)) [
        | inl e ↦ rw e h
        | inr e ↦ rw e h
      ]
  turn-IsLatest s q (filled len) h = refl
  turn-IsLatest s q waking h = h

  move-IsLatest : (s : System) (q : ℕ) (m : Move) → IsLatest s → IsLatest (move u s q m)
  unfolding move
  move-IsLatest s q (call_read count) h = h
  move-IsLatest s q (call_write from count) h = h
  move-IsLatest s q go h =
      turn-IsLatest (record s { procs = roused (s.procs q) s.procs }) q (s.procs q) h

  pub run-IsLatest : (ms : List (ℕ × Move)) (s : System) → IsLatest s → IsLatest (run u ms s)
  unfolding run
  run-IsLatest [] s h = h
  run-IsLatest ((q, m) ∷ ms) s h = run-IsLatest ms (move u s q m) (move-IsLatest s q m h)

  pub goes_on :
      (s : System) (q count : ℕ)
      → let n = min count s.shared.data_available in
        let (bytes, left) = u.copy_to_user s.shared.buffer n in
        s.procs q ≡ waiting count
        → 0 < s.shared.data_available
        → left ≡ 0
        → let after = run u (four_turns q) s in
          (after.log ≡ read_done count n bytes ∷ s.log) × (after.shared.data_available ≡ 0)
  unfolding run move turn roused
  goes_on s q count here some_there all =
      let e : (s.shared.data_available == 0) ≡ false = ground (arith, some_there) in
      let t0 : Two q (q + 1) s s.shared (waiting count) (s.procs (q + 1)) s.log = record {
        shared = refl;
        left = here;
        right = refl;
        history = refl;
      } in
      let t1 = go_at u apart (waiting count) (woken count) s.shared none (rw e refl) refl t0 in
      let t2 = go_at u apart (woken count) (measured count n) s.shared none refl refl t1 in
      let t3 =
        go_at u apart (measured count n) (delivered count n bytes) s.shared none (rw all refl) refl
          t2 in
      let t4 =
        go_at u apart (delivered count n bytes) idle (record (s.shared) { data_available = 0 })
          (some (read_done count n bytes)) refl refl t3 in
      (t4.history, ap (λ (x : Shared). x.data_available) t4.shared)
    where
      n : ℕ
      n = min count s.shared.data_available

      bytes : List ℕ
      bytes = (u.copy_to_user s.shared.buffer n).0

      apart : q ≢ q + 1
      apart e = omega (arith, e)
