-- ===== src/Driver/SharedCounter/Linear.antt =====
-- The counter of many processes, against one that is read and added to at once.
use embedded_linux_bsp.Common.{
  ℕ, ◌≡◌, subst, ◌≢◌, refl, sym, ◌∙◌, ap, ◌==◌, ==_refl, true, false, Bool, Option, none, some,
  List, [], ◌∷◌, ◌++◌, ℤ, arith,
}
use native.Mathlib.Decide.{ℕ_discrete}
use embedded_linux_bsp.Driver.SharedCounter.{add_delta, initial_counter}
use embedded_linux_bsp.Driver.SharedCounter.Interleaving.{
  At, idle, wants_value, wants_add, reading, got, adding, loaded, stored, returning, Event, took,
  added, System, start, update, Step, call_read, call_write, lock_read, take_value, unlock_read,
  return_read, lock_write, load, store, unlock_write, Reach, here, next,
}

-- The specification: a counter that does each event at once. A value taken that is not the counter's
-- is refused.
unfoldable pub replay : ℕ → List Event → Option ℕ
replay counter [] = some counter
replay counter (took value ∷ es) = elim (value == counter) [
  | true ↦ replay counter es
  | false ↦ none
]
replay counter (added delta ∷ es) = replay (add_delta counter delta) es

replay-append :
    (es : List Event) (e : Event) (c d : ℕ)
    → replay c es ≡ some d
    → replay c (es ++ e ∷ []) ≡ replay d (e ∷ [])
unfolding replay
replay-append [] e c d h = ground (arith, h)
replay-append (took v ∷ es) e c d h = ground (arith, h, replay-append es e c d)
replay-append (added delta ∷ es) e c d h = replay-append es e (add_delta c delta) d h

-- between the lock and the unlock
abbrev pub inside : At → Bool
inside reading = true
inside (got _) = true
inside (adding _) = true
inside (loaded _ _) = true
inside stored = true
inside _ = false

abbrev pub IsFresh : ℕ → At → Type 0
IsFresh counter (loaded delta value) = value ≡ counter
IsFresh counter _ = Unit

pub record IsLinear (s : System) : Type 0 where
  pub alone : (q : ℕ) → inside (s.procs q) ≡ true → s.counter_lock ≡ some q
  pub fresh : (q : ℕ) → IsFresh s.shared_counter (s.procs q)
  pub replays : replay initial_counter s.log ≡ some s.shared_counter

update-split {ℓ} :
    (P : At → Type ℓ) (procs : ℕ → At) (q : ℕ) (x : At) (r : ℕ)
    → (r ≡ q → P x)
    → (r ≢ q → P (procs r))
    → P (update procs q x r)
update-split P procs q x r moved other = elim (ℕ_discrete r q) [
  | yes e ↦ let t : (r == q) ≡ true = ground (arith, e) in rw t (moved e)
  | no e ↦ let t : (r == q) ≡ false = ground (arith, e) in rw t (other e)
]

-- A process outside has loaded nothing.
outside-IsFresh : (counter : ℕ) (x : At) → ¬ (inside x ≡ true) → IsFresh counter x
outside-IsFresh counter (loaded delta value) out = absurd (out refl)
outside-IsFresh counter idle out = tt
outside-IsFresh counter wants_value out = tt
outside-IsFresh counter (wants_add _) out = tt
outside-IsFresh counter reading out = tt
outside-IsFresh counter (got _) out = tt
outside-IsFresh counter (adding _) out = tt
outside-IsFresh counter stored out = tt
outside-IsFresh counter (returning _) out = tt

module _ (s : System) (h : IsLinear s) (q : ℕ) where
  -- Another process than the one inside is outside.
  other-outside : (r : ℕ) → inside (s.procs q) ≡ true → r ≢ q → ¬ (inside (s.procs r) ≡ true)
  other-outside r now other i =
      other (let e : some r ≡ some q = sym (h.alone r i) ∙ h.alone q now in cc (e))

  -- A move that leaves the lock, the counter and the log alone.
  move-IsLinear :
      (x : At)
      → (inside x ≡ true → inside (s.procs q) ≡ true)
      → IsFresh s.shared_counter x
      → IsLinear (record s { procs = update s.procs q x })
  move-IsLinear x stays fresh = record {
    alone = λ r.
        update-split (λ y. inside y ≡ true → s.counter_lock ≡ some r) s.procs q x r
          (λ e i. h.alone q (stays i) ∙ ap some (sym e)) (λ _. h.alone r);
    fresh =
        λ r. update-split (IsFresh s.shared_counter) s.procs q x r (λ _. fresh) (λ _. h.fresh r);
    replays = h.replays;
  }

  lock-IsLinear :
      (x : At)
      → s.counter_lock ≡ none
      → IsFresh s.shared_counter x
      → IsLinear (record s { counter_lock = some q; procs = update s.procs q x })
  lock-IsLinear x free fresh = record {
    alone = λ r.
        update-split (λ y. inside y ≡ true → some q ≡ some r) s.procs q x r (λ e _. ap some (sym e))
          (λ _ i. let e : none ≡ some r = sym free ∙ h.alone r i in cc (e));
    fresh =
        λ r. update-split (IsFresh s.shared_counter) s.procs q x r (λ _. fresh) (λ _. h.fresh r);
    replays = h.replays;
  }

  unlock-IsLinear :
      (x : At)
      → inside (s.procs q) ≡ true
      → inside x ≡ false
      → IsLinear (record s { counter_lock = none; procs = update s.procs q x })
  unlock-IsLinear x now out = record {
    alone = λ r.
        update-split (λ y. inside y ≡ true → none ≡ some r) s.procs q x r
          (λ _ i. let e : true ≡ false = sym i ∙ out in cc (e))
          (λ other i. absurd (other-outside r now other i));
    fresh = λ r.
        update-split (IsFresh s.shared_counter) s.procs q x r
          (λ _. outside-IsFresh _ x (λ i. let e : true ≡ false = sym i ∙ out in cc (e)))
          (λ _. h.fresh r);
    replays = h.replays;
  }

  store-IsLinear :
      (delta : ℤ) (value : ℕ)
      → s.procs q ≡ loaded delta value
      → IsLinear (record s {
        shared_counter = add_delta value delta;
        procs = update s.procs q stored;
        log = s.log ++ added delta ∷ [];
      })
  unfolding replay
  store-IsLinear delta value e = record {
    alone = λ r.
        update-split (λ y. inside y ≡ true → s.counter_lock ≡ some r) s.procs q stored r
          (λ same _. h.alone q (ap inside e) ∙ ap some (sym same)) (λ _. h.alone r);
    fresh = λ r.
        update-split (IsFresh (add_delta value delta)) s.procs q stored r (λ _. tt)
          (λ other. outside-IsFresh _ (s.procs r) (other-outside r (ap inside e) other));
    replays =
        replay-append s.log (added delta) initial_counter s.shared_counter h.replays
        ∙ ap (λ c. some (add_delta c delta)) (sym (subst (IsFresh s.shared_counter) e (h.fresh q)));
  }

Step-IsLinear : {s t : System} → Step s t → IsLinear s → IsLinear t
unfolding replay
Step-IsLinear (call_read s q e) h = move-IsLinear s h q wants_value (λ i. cc) tt
Step-IsLinear (call_write s q delta e) h = move-IsLinear s h q (wants_add delta) (λ i. cc) tt
Step-IsLinear (lock_read s q e free) h = lock-IsLinear s h q reading free tt
Step-IsLinear (take_value s q e) h =
    let m = move-IsLinear s h q (got s.shared_counter) (λ _. ap inside e) tt in
    record {
      alone = m.alone;
      fresh = m.fresh;
      replays =
          replay-append s.log (took s.shared_counter) initial_counter s.shared_counter h.replays
          ∙ rw (replay, ==_refl s.shared_counter) refl;
    }
Step-IsLinear (unlock_read s q value e) h =
    unlock-IsLinear s h q (returning value) (ap inside e) refl
Step-IsLinear (return_read s q value e) h = move-IsLinear s h q idle (λ i. cc) tt
Step-IsLinear (lock_write s q delta e free) h = lock-IsLinear s h q (adding delta) free tt
Step-IsLinear (load s q delta e) h =
    move-IsLinear s h q (loaded delta s.shared_counter) (λ _. ap inside e) refl
Step-IsLinear (store s q delta value e) h = store-IsLinear s h q delta value e
Step-IsLinear (unlock_write s q e) h = unlock-IsLinear s h q idle (ap inside e) refl

start-IsLinear : IsLinear start
unfolding replay
start-IsLinear = record { alone = λ q i. cc; fresh = λ q. tt; replays = refl }

-- After any steps of any processes: the values taken and the deltas added, in the order in which they were, are a
-- run of a counter that does each at once, and it ends at the counter's value; a process between lock and unlock
-- is the mutex's owner, so that it is the only one; and a value loaded for an addition is still the counter's.
pub Reach-IsLinear : {s : System} → Reach start s → IsLinear s
Reach-IsLinear here = start-IsLinear
Reach-IsLinear (next r step) = Step-IsLinear step (Reach-IsLinear r)
