-- ===== src/Driver/WaitQueue/Causes.antt =====
-- What a read returns, however the calls interleave.
use embedded_linux_bsp.Common.{
  ℕ, ◌≤◌, ◌<◌, ◌≡◌, ◌⊎◌, inl, inr, Bool-cases, ◌==◌, ltb, min, Option, none, some, List, [], ◌∷◌,
  length, length-replicate, arith,
}
use embedded_linux_bsp.Driver.User.{efault, UserCopy, IsUserCopy}
use embedded_linux_bsp.Driver.WaitQueue.{
  buffer_len, Shared, At, idle, waiting, asleep, woken, measured, delivered, filling, filled,
  waking, Event, read_done, wrote, failed, System, start, turn, rouse, wake_up, roused, Move,
  call_read, call_write, go, call, update, noted, after_turn, move, run,
}

-- Some write has made at least one byte available.
abbrev pub HasData : List Event → Type 0
HasData [] = ⊥
HasData (wrote len ∷ es) = (0 < len) ⊎ HasData es
HasData (read_done _ _ _ ∷ es) = HasData es
HasData (failed _ ∷ es) = HasData es

-- Every read that returned had such a write before it, and delivered as many bytes as it returned, at most as many as
-- were asked for and as the buffer has; every write took at most as many as the buffer has.
abbrev pub IsCaused : List Event → Type 0
IsCaused [] = Unit
IsCaused (wrote len ∷ es) = (len ≤ 128) × IsCaused es
IsCaused (read_done count len bytes ∷ es) =
    HasData es × (len ≤ count) × (len ≤ 128) × (length bytes ≡ len) × IsCaused es
IsCaused (failed _ ∷ es) = IsCaused es

-- What is known of a process by the place where it stands.
abbrev pub Stands : List Event → At → Type 0
Stands log idle = Unit
Stands log (waiting count) = Unit
Stands log (asleep count) = Unit
Stands log (woken count) = HasData log
Stands log (measured count len) = HasData log × (len ≤ count) × (len ≤ 128)
Stands log (delivered count len bytes) =
    HasData log × (len ≤ count) × (len ≤ 128) × (length bytes ≡ len)
Stands log (filling from count) = Unit
Stands log (filled len) = len ≤ 128
Stands log waking = Unit

pub record IsServed (s : System) : Type 0 where
  pub whole : length s.shared.buffer ≡ 128
  pub within : s.shared.data_available ≤ 128
  pub available : 0 < s.shared.data_available → HasData s.log
  pub stands : (q : ℕ) → Stands s.log (s.procs q)
  pub caused : IsCaused s.log

update-split :
    (P : At → Type 0) (procs : ℕ → At) (q : ℕ) (x : At) (r : ℕ)
    → P x
    → P (procs r)
    → P (update procs q x r)
update-split P procs q x r hx hr = elim (Bool-cases (r == q)) [ inl e ↦ rw e hx | inr e ↦ rw e hr ]

noted-HasData : (e : Option Event) (log : List Event) → HasData log → HasData (noted e log)
noted-HasData none log h = h
noted-HasData (some (wrote len)) log h = inr h
noted-HasData (some (read_done count len bytes)) log h = h
noted-HasData (some (failed e)) log h = h

noted-Stands :
    (e : Option Event) (log : List Event) (x : At) → Stands log x → Stands (noted e log) x
noted-Stands e log idle h = tt
noted-Stands e log (waiting count) h = tt
noted-Stands e log (asleep count) h = tt
noted-Stands e log (woken count) h = noted-HasData e log h
noted-Stands e log (measured count len) (h, asked, fits) = (noted-HasData e log h, asked, fits)
noted-Stands e log (delivered count len bytes) (h, asked, fits, all) =
    (noted-HasData e log h, asked, fits, all)
noted-Stands e log (filling from count) h = tt
noted-Stands e log (filled len) h = h
noted-Stands e log waking h = tt

rouse-Stands : (log : List Event) (x : At) → Stands log x → Stands log (rouse x)
unfolding rouse
rouse-Stands log idle h = tt
rouse-Stands log (waiting count) h = tt
rouse-Stands log (asleep count) h = tt
rouse-Stands log (woken count) h = h
rouse-Stands log (measured count len) h = h
rouse-Stands log (delivered count len bytes) h = h
rouse-Stands log (filling from count) h = tt
rouse-Stands log (filled len) h = h
rouse-Stands log waking h = tt

module _ (s : System) (h : IsServed s) (q : ℕ) where
  settle :
      (sh : Shared) (x : At) (e : Option Event)
      → length sh.buffer ≡ 128
      → sh.data_available ≤ 128
      → (0 < sh.data_available → HasData (noted e s.log))
      → Stands (noted e s.log) x
      → IsCaused (noted e s.log)
      → IsServed (after_turn s q (some (sh, x, e)))
  settle sh x e whole within available here caused = record {
    whole = whole;
    within = within;
    available = available;
    stands = λ r.
        update-split (Stands (noted e s.log)) s.procs q x r here
          (noted-Stands e s.log (s.procs r) (h.stands r));
    caused = caused;
  }

  -- a step that leaves the shared variables and the history alone
  stay : (x : At) → Stands s.log x → IsServed (after_turn s q (some (s.shared, x, none)))
  stay x here = settle s.shared x none h.whole h.within h.available here h.caused

  module _ (u : UserCopy) (law : IsUserCopy u) where
    turn-IsServed : (x : At) → Stands s.log x → IsServed (after_turn s q (turn u s.shared x))
    unfolding turn
    turn-IsServed idle here = h
    turn-IsServed (waiting count) here = elim (Bool-cases (s.shared.data_available == 0)) [
      | inl e ↦ rw e (stay (asleep count) tt)
      | inr e ↦ rw e (stay (woken count) (h.available (ground (arith, e))))
    ]
    turn-IsServed (asleep count) here = h
    turn-IsServed (woken count) here = stay _ (here, omega arith, omega (arith, h.within))
    turn-IsServed (measured count len) (written, asked, fits) =
        elim (Bool-cases (ltb 0 (u.copy_to_user s.shared.buffer len).1)) [
          | inl e ↦
              rw e (
                settle s.shared idle (some (failed efault)) h.whole h.within h.available tt
                  h.caused)
          | inr e ↦ rw e (
              stay _ (
                written,
                asked,
                fits,
                ground
                    (arith, e, h.whole, law.adds_up s.shared.buffer len (omega (arith, h.whole))),
              ))
        ]
    turn-IsServed (delivered count len bytes) (written, asked, fits, all) =
        settle (record (s.shared) { data_available = 0 }) idle (some (read_done count len bytes))
          h.whole (omega arith) (λ z. absurd (ground (arith, z))) tt
          (written, asked, fits, all, h.caused)
    turn-IsServed (filling from count) here =
        elim (Bool-cases (ltb 0 (u.copy_from_user s.shared.buffer from (min count buffer_len)).1)) [
          | inl e ↦ rw e (
              settle (record (s.shared) { buffer = bytes }) idle (some (failed efault)) kept
                h.within h.available tt h.caused)
          | inr e ↦ rw e (
              settle (record (s.shared) { buffer = bytes }) (filled (min count buffer_len)) none
                kept h.within h.available (omega arith) h.caused)
        ]
      where
        bytes : List ℕ
        bytes = (u.copy_from_user s.shared.buffer from (min count buffer_len)).0

        kept : length bytes ≡ 128
        kept = omega (
          arith,
          law.keeps_length s.shared.buffer from (min count buffer_len) (omega (arith, h.whole)),
          h.whole,
        )
    turn-IsServed (filled len) here =
        settle (record (s.shared) { data_available = len }) waking (some (wrote len)) h.whole here
          (λ z. inl z) tt (here, h.caused)
    turn-IsServed waking here = stay idle tt

    call-Stands : (x y : At) → Stands s.log x → Stands s.log y → Stands s.log (call x y)
    unfolding call
    call-Stands idle y hx hy = hy
    call-Stands (waiting count) y hx hy = hx
    call-Stands (asleep count) y hx hy = hx
    call-Stands (woken count) y hx hy = hx
    call-Stands (measured count len) y hx hy = hx
    call-Stands (delivered count len bytes) y hx hy = hx
    call-Stands (filling from count) y hx hy = hx
    call-Stands (filled len) y hx hy = hx
    call-Stands waking y hx hy = hx

roused-IsServed :
    (s : System) (x : At) → IsServed s → IsServed (record s { procs = roused x s.procs })
unfolding roused wake_up
roused-IsServed s waking h = record {
  whole = h.whole;
  within = h.within;
  available = h.available;
  stands = λ r. rouse-Stands s.log (s.procs r) (h.stands r);
  caused = h.caused;
}
roused-IsServed s idle h = h
roused-IsServed s (waiting count) h = h
roused-IsServed s (asleep count) h = h
roused-IsServed s (woken count) h = h
roused-IsServed s (measured count len) h = h
roused-IsServed s (delivered count len bytes) h = h
roused-IsServed s (filling from count) h = h
roused-IsServed s (filled len) h = h

module _ (u : UserCopy) (law : IsUserCopy u) (s : System) (h : IsServed s) (q : ℕ) where
  move-IsServed : (m : Move) → IsServed (move u s q m)
  unfolding move
  move-IsServed (call_read count) =
      stay s h q _ (call-Stands s h q u law (s.procs q) (waiting count) (h.stands q) tt)
  move-IsServed (call_write from count) =
      stay s h q _ (call-Stands s h q u law (s.procs q) (filling from count) (h.stands q) tt)
  move-IsServed go =
      turn-IsServed (record s { procs = roused (s.procs q) s.procs })
        (roused-IsServed s (s.procs q) h) q u law (s.procs q) (h.stands q)

start-IsServed : IsServed start
start-IsServed = record {
  whole = length-replicate {0} {A = ℕ} 128 0;
  within = omega arith;
  available = λ z. absurd (ground (arith, z));
  stands = λ q. tt;
  caused = tt;
}

run-kept :
    (u : UserCopy) (law : IsUserCopy u) (ms : List (ℕ × Move)) (s : System)
    → IsServed s
    → IsServed (run u ms s)
unfolding run
run-kept u law [] s h = h
run-kept u law ((q, m) ∷ ms) s h = run-kept u law ms (move u s q m) (move-IsServed u law s h q m)

-- From the start, after any moves of any processes, on a kernel whose copies do as it documents: the buffer has its 128
-- bytes, of which at most all are available; and every read that returned had a write before it that made at least one
-- byte available, and delivered as many bytes as it returned, at most as many as were asked for and as the buffer has.
pub run-IsServed :
    (u : UserCopy) → IsUserCopy u → (ms : List (ℕ × Move)) → IsServed (run u ms start)
run-IsServed u law ms = run-kept u law ms start start-IsServed
