-- ===== src/Driver/Samples.antt =====
-- A kernel that copies all or nothing, for the tests.
use embedded_linux_bsp.Common.{
  ℕ, ◌≤◌, ◌≡◌, refl, true, inl, inr, Bool-cases, leb, if◌then◌else◌, List, ◌++◌, length, take, drop,
  length-append, length-take, length-drop, arith,
}
use embedded_linux_bsp.Driver.User.{UserCopy, IsUserCopy}

abbrev pub honest : UserCopy
honest = record {
  copy_from_user =
      λ to from n. if leb n (length from) then (take n from ++ drop n to, 0) else (to, n);
  copy_to_user = λ from n. (take n from, 0);
}

kept :
    (to from : List ℕ) (n : ℕ)
    → n ≤ length to
    → length (honest.copy_from_user to from n).0 ≡ length to
kept to from n h = elim (Bool-cases (leb n (length from))) [
  | inl q ↦
      let k : n ≤ length from = ground (arith, q) in
      rw q (
        omega (
          arith,
          length-append {0} (take n from) (drop n to),
          length-take {0} n from,
          length-drop {0} n to,
          k,
        ))
  | inr q ↦ rw q refl
]

copied :
    (to from : List ℕ) (n : ℕ)
    → n ≤ length from
    → (honest.copy_from_user to from n).0 ≡ take n from ++ drop n to
copied to from n k = let q : leb n (length from) ≡ true = ground arith in rw q refl

pub honest_laws : IsUserCopy honest
honest_laws = record {
  keeps_length = λ to from n h. kept to from n h;
  copies_from = λ to from n h k e. copied to from n k;
  adds_up = λ from n h. omega (arith, length-take {0} n from);
  copies_to = λ from n h e. refl;
}
