-- ===== src/Driver/SharedCounter/Total.antt =====
-- What the counter has added up.
use embedded_linux_bsp.Common.{
  ℕ, ◌+◌, ◌%◌, ◌^◌, ◌<◌, ◌≡◌, inl, inr, Bool-cases, none, ◌==◌, some, List, [], ◌∷◌, arith,
}
use embedded_linux_bsp.Driver.SharedCounter.{word_of, add_delta, initial_counter}
use embedded_linux_bsp.Driver.SharedCounter.Interleaving.{Event, took, added, System, start, Reach}
use embedded_linux_bsp.Driver.SharedCounter.Linear.{replay, Reach-IsLinear}

-- The sum of all the deltas of a history, as 32-bit integers.
abbrev pub total : List Event → ℕ
total [] = 0
total (took value ∷ es) = total es
total (added delta ∷ es) = (word_of delta + total es) % 2 ^ 32

total-small : (es : List Event) → total es < 2 ^ 32
total-small [] = omega arith
total-small (took value ∷ es) = total-small es
total-small (added delta ∷ es) = omega arith

replay-total :
    (es : List Event) (c d : ℕ) → c < 2 ^ 32 → replay c es ≡ some d → d ≡ (c + total es) % 2 ^ 32
unfolding replay add_delta
replay-total [] c d h e = ground (arith, h, e)
replay-total (took value ∷ es) c d h e = elim (Bool-cases (value == c)) [
  | inl q ↦ replay-total es c d h (rw (q, replay) at e)
  | inr q ↦ let f : none ≡ some d = (rw (q, replay) at e) in cc f
]
replay-total (added delta ∷ es) c d h e =
    let ih = replay-total es (add_delta c delta) d (omega arith) e in omega (arith, ih)

-- After any steps of any processes, between which those of the others may come as they like, the counter is the sum,
-- as 32-bit integers wrap around, of all the deltas that were added: no addition is lost to another.
pub Reach-total : {s : System} → Reach start s → s.shared_counter ≡ total s.log
Reach-total {s} r =
    let e =
      replay-total s.log initial_counter s.shared_counter (omega arith)
        (Reach-IsLinear r).replays in
    omega (arith, e, total-small s.log)
