-- ===== src/Driver/WaitQueue/Two.antt =====
-- Two of the processes, step by step.
use embedded_linux_bsp.Common.{
  ℕ, ◌≡◌, ◌≢◌, refl, ap, false, ◌==◌, ==_refl, Option, some, List, arith,
}
use embedded_linux_bsp.Driver.User.{UserCopy}
use embedded_linux_bsp.Driver.WaitQueue.{
  Shared, At, idle, waking, Event, System, turn, rouse, roused, wake_up, go, call, update, noted,
  move,
}

-- The shared variables, where two processes stand, and the history.
pub record Two (q r : ℕ) (s : System) (sh : Shared) (x y : At) (log : List Event) : Type 0 where
  pub shared : s.shared ≡ sh
  pub left : s.procs q ≡ x
  pub right : s.procs r ≡ y
  pub history : s.log ≡ log

pub swap :
    {q r : ℕ} {s : System} {sh : Shared} {x y : At} {log : List Event}
    → Two q r s sh x y log
    → Two r q s sh y x log
swap t = record { shared = t.shared; left = t.right; right = t.left; history = t.history }

module _ (u : UserCopy) {q r : ℕ} (apart : q ≢ r) {s : System} {sh : Shared} {y : At}
    {log : List Event} where
  pub call_at :
      (x : At)
      → Two q r s sh idle y log
      → Two q r (record s { procs = update s.procs q (call (s.procs q) x) }) sh x y log
  unfolding call
  call_at x t = record {
    shared = t.shared;
    left = rw (==_refl q, t.left, call) refl;
    right = let o : (r == q) ≡ false = ground (arith, apart) in rw o t.right;
    history = t.history;
  }

  pub go_at :
      (x x' : At) (sh' : Shared) (e : Option Event)
      → turn u sh x ≡ some (sh', x', e)
      → roused x s.procs ≡ s.procs
      → Two q r s sh x y log
      → Two q r (move u s q go) sh' x' y (noted e log)
  unfolding move
  go_at x x' sh' e next quiet t =
      let turned : turn u s.shared (s.procs q) ≡ some (sh', x', e) = rw (t.shared, t.left) next in
      let still : roused (s.procs q) s.procs ≡ s.procs = rw (t.left) quiet in
      rw (turned, still)
        (record {
          shared = refl;
          left = rw (==_refl q) refl;
          right = let o : (r == q) ≡ false = ground (arith, apart) in rw o t.right;
          history = ap (noted e) t.history;
        })

  -- the `wake_up`
  pub wake_at : Two q r s sh waking y log → Two q r (move u s q go) sh idle (rouse y) log
  unfolding move turn roused wake_up rouse
  wake_at t =
      let here : s.procs q ≡ waking = t.left in
      rw here (record {
        shared = t.shared;
        left = rw (==_refl q) refl;
        right = let o : (r == q) ≡ false = ground (arith, apart) in rw o (ap rouse t.right);
        history = t.history;
      })
