-- ===== src/Driver/MutexExample/Tests.antt =====
-- Forty rounds of one turn each.
use embedded_linux_bsp.Common.{
  ℕ, zero, suc, ◌≡◌, refl, none, inl, inr, List, [], ◌∷◌, replicate, length-replicate, arith,
}
use embedded_linux_bsp.Driver.MutexExample.{Who, thread1, thread2, mutex_example_init, schedule}
use embedded_linux_bsp.Driver.MutexExample.Ending.{AreRounds, rounds_of, schedule_ends}

abbrev in_turn : List Who
in_turn = thread2 ∷ thread1 ∷ []

in_turn-AreRounds : (n : ℕ) → AreRounds (replicate n in_turn)
in_turn-AreRounds zero = tt
in_turn-AreRounds (suc n) = ((inr (inl refl), inl refl), in_turn-AreRounds n)

schedule_ends_example :
    let sys = schedule mutex_example_init (rounds_of (replicate 40 in_turn)) in
    (sys.worker1.i ≡ 5)
    × (sys.worker2.i ≡ 5)
    × ((sys.shared.shared_data ≡ 10) × (sys.shared.my_mutex ≡ none))
schedule_ends_example =
    schedule_ends (replicate 40 in_turn) (in_turn-AreRounds 40)
      (omega (arith, length-replicate {0} {A = List Who} 40 in_turn))
