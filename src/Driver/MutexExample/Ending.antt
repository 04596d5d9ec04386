-- ===== src/Driver/MutexExample/Ending.antt =====
-- The two workers under a fair scheduler.
use embedded_linux_bsp.Common.{
  ◌+◌, ◌≤◌, ◌<◌, ◌≡◌, refl, sym, ap, subst, Bool-cases, ltb, ltb→lt, none, some, Option-cases, List,
  [], ◌∷◌, ◌++◌, length, ◌⊎◌, inl, inr, arith,
}
use embedded_linux_bsp.Driver.MutexExample.{
  Who, thread1, thread2, System, mutex_example_init, step, turn, schedule,
}
use embedded_linux_bsp.Driver.MutexExample.Invariant.{
  IsSafeSystem, schedule_from-IsSafe, init-IsSafe, schedule_finished,
}
use embedded_linux_bsp.Driver.MutexExample.Progress.{safe_progress}
use embedded_linux_bsp.Driver.MutexExample.Effort.{efforts, step-efforts, place-inside}

abbrev pub Has : Who → List Who → Type 0
Has who [] = ⊥
Has who (x ∷ xs) = (x ≡ who) ⊎ Has who xs

-- Turns that end in a system changed nothing, since none of their threads can move, or brought the workers forward.
abbrev Forward : System → List Who → System → Type 0
Forward sys whos end =
    ((end ≡ sys) × ((who : Who) → Has who whos → step who sys ≡ none)) ⊎ (efforts sys < efforts end)

turn-still : (sys : System) (x : Who) → step x sys ≡ none → turn sys x ≡ sys
unfolding turn
turn-still sys x q = rw (q, turn) refl

turn-moved : (sys next : System) (x : Who) → step x sys ≡ some next → turn sys x ≡ next
unfolding turn
turn-moved sys next x q = rw (q, turn) refl

waits_too :
    (sys end : System) (x : Who) (whos : List Who)
    → step x sys ≡ none
    → Forward sys whos end
    → Forward sys (x ∷ whos) end
waits_too sys end x whos q (inl (same, stuck)) = inl (
  same,
  λ who h. elim h [ inl e ↦ subst (λ y. step y sys ≡ none) e q | inr there ↦ stuck who there ],
)
waits_too sys end x whos q (inr more) = inr more

Forward-grows :
    (sys end : System) (whos : List Who) → Forward sys whos end → efforts sys ≤ efforts end
Forward-grows sys end whos (inl (same, _)) = omega (arith, ap efforts same)
Forward-grows sys end whos (inr more) = omega (arith, more)

schedule-Forward : (sys : System) (whos : List Who) → Forward sys whos (schedule sys whos)
unfolding schedule
schedule-Forward sys [] = inl (refl, λ who h. absurd h)
schedule-Forward sys (x ∷ whos) = elim (Option-cases (step x sys)) [
  | inl q ↦
      subst (λ t. Forward sys (x ∷ whos) (schedule t whos)) (sym (turn-still sys x q))
        (waits_too sys _ x whos q (schedule-Forward sys whos))
  | inr (next, q) ↦
      subst (λ t. Forward sys (x ∷ whos) (schedule t whos)) (sym (turn-moved sys next x q))
        (inr (
          omega (
            arith,
            step-efforts x sys next q,
            Forward-grows next _ whos (schedule-Forward next whos),
          )))
]

-- a part of a schedule in which both threads have a turn
abbrev pub IsRound : List Who → Type 0
IsRound whos = Has thread1 whos × Has thread2 whos

abbrev pub AreRounds : List (List Who) → Type 0
AreRounds [] = Unit
AreRounds (r ∷ rs) = IsRound r × AreRounds rs

abbrev pub rounds_of : List (List Who) → List Who
rounds_of [] = []
rounds_of (r ∷ rs) = r ++ rounds_of rs

round-efforts :
    (sys : System) (whos : List Who)
    → IsSafeSystem sys
    → IsRound whos
    → efforts sys < 40
    → efforts sys < efforts (schedule sys whos)
round-efforts sys whos h (one, two) busy = elim (schedule-Forward sys whos) [
  | inr more ↦ more
  | inl (_, stuck) ↦ elim (safe_progress sys h) [
    | inl (thread1, (next, q)) ↦ absurd (cc (stuck thread1 one, q))
    | inl (thread2, (next, q)) ↦ absurd (cc (stuck thread2 two, q))
    | inr (e, f) ↦ absurd (omega (arith, e, f, busy))
  ]
]

schedule-append :
    (sys : System) (a b : List Who) → schedule sys (a ++ b) ≡ schedule (schedule sys a) b
unfolding schedule
schedule-append sys [] b = refl
schedule-append sys (x ∷ a) b = schedule-append (turn sys x) a b

rounds-efforts :
    (rs : List (List Who)) (sys : System)
    → IsSafeSystem sys
    → AreRounds rs
    → 40 ≤ length rs + efforts sys
    → 40 ≤ efforts (schedule sys (rounds_of rs))
unfolding schedule
rounds-efforts [] sys h rounds enough = omega (arith, enough)
rounds-efforts (r ∷ rs) sys h (round, rounds) enough = rw (schedule-append sys r (rounds_of rs)) (
    rounds-efforts rs (schedule sys r) (schedule_from-IsSafe sys r h) rounds
      (elim (Bool-cases (ltb (efforts sys) 40)) [
        | inl busy ↦ omega (arith, enough, round-efforts sys r h round (ltb→lt _ 40 busy))
        | inr over ↦
            let far : 40 ≤ efforts sys = ground (arith, over) in
            omega (arith, far, Forward-grows sys _ r (schedule-Forward sys r))
      ]))

-- Any sequence of turns that falls into forty parts, in each of which both threads have a turn, ends the example:
-- both workers have done their five rounds, the counter is 10 and the mutex is free.
pub schedule_ends :
    (rs : List (List Who))
    → AreRounds rs
    → 40 ≤ length rs
    → let sys = schedule mutex_example_init (rounds_of rs) in
      (sys.worker1.i ≡ 5)
      × (sys.worker2.i ≡ 5)
      × ((sys.shared.shared_data ≡ 10) × (sys.shared.my_mutex ≡ none))
schedule_ends rs rounds enough = (five1, five2, schedule_finished (rounds_of rs) five1 five2)
  where
    sys : System
    sys = schedule mutex_example_init (rounds_of rs)

    h : IsSafeSystem (schedule mutex_example_init (rounds_of rs))
    h = schedule_from-IsSafe mutex_example_init (rounds_of rs) init-IsSafe

    spent : 40 ≤ efforts (schedule mutex_example_init (rounds_of rs))
    spent = rounds-efforts rs mutex_example_init init-IsSafe rounds (omega (arith, enough))

    five1 : (schedule mutex_example_init (rounds_of rs)).worker1.i ≡ 5
    five1 = omega (
      arith,
      spent,
      h.bound_a,
      h.bound_b,
      place-inside sys.worker1.at,
      place-inside sys.worker2.at,
    )

    five2 : (schedule mutex_example_init (rounds_of rs)).worker2.i ≡ 5
    five2 = omega (
      arith,
      spent,
      h.bound_a,
      h.bound_b,
      place-inside sys.worker1.at,
      place-inside sys.worker2.at,
    )
