-- ===== src/Driver/SharedCounter/Text.antt =====
-- What one process reads of the counter and writes to it.
use embedded_linux_bsp.Common.{
  ℕ, ◌+◌, ◌%◌, ◌^◌, ◌≤◌, ◌<◌, ◌≡◌, refl, ap, ◌∙◌, ◌⊎◌, inl, inr, false, Bool-cases, ◌==◌, ◌||◌, ltb,
  leb, List, [], ◌++◌, length, take, drop, take-append_short, take-length, ℤ, pos, arith,
}
use embedded_linux_bsp.Common.World.{Result-cases, ok, err}
use embedded_linux_bsp.Driver.User.{efault, einval, UserCopy, IsUserCopy}
use embedded_linux_bsp.Driver.SharedCounter.{
  signed32, add_delta, Numerals, IsNumerals, my_read, parse_delta, my_write,
}

add_delta-signed32 : (c w : ℕ) → w < 2 ^ 32 → add_delta c (signed32 w) ≡ (c + w) % 2 ^ 32
unfolding add_delta
add_delta-signed32 c w h = ground arith

module _ (u : UserCopy) (law : IsUserCopy u) (t : Numerals) (texts : IsNumerals t) where
  -- A process that reads from the start of the file, with room for the text and a copy that leaves nothing
  -- uncopied, gets the text of the counter's value; its next read, whatever the counter is by then,
  -- gives 0: the end of the file.
  pub my_read_whole :
      (counter later count : ℕ)
      → length (t.scnprintf counter) ≤ count
      → (u.copy_to_user (t.scnprintf counter) (length (t.scnprintf counter))).1 ≡ 0
      → let text = t.scnprintf counter in
        (my_read u t counter count 0 ≡ (text, pos (length text), length text))
        × (my_read u t later count (my_read u t counter count 0).2 ≡ ([], pos 0, length text))
  unfolding my_read
  my_read_whole counter later count room all = (first, rw first (rw past refl))
    where
      text : List ℕ
      text = t.scnprintf counter

      fits : ltb count (length text) ≡ false
      fits = ground (arith, room)

      first : my_read u t counter count 0 ≡ (text, pos (length text), length text)
      first =
          rw (fits, all, law.copies_to text (length text) (omega arith) all, take-length text)
            (ap (λ (n : ℕ). (text, pos (length text), n)) (omega arith))

      past : (length text == 0) ≡ false
      past = ground (arith, texts.some_text counter)

  -- What was read of one counter and is written to another, or to the same, in a copy that leaves nothing
  -- uncopied, adds the value that was read, as 32-bit integers do, and returns the length of the text.
  pub my_write-scnprintf :
      (tmp : List ℕ) (counter value : ℕ)
      → length tmp ≡ 32
      → value < 2 ^ 32
      → (u.copy_from_user tmp (t.scnprintf value) (length (t.scnprintf value))).1 ≡ 0
      → my_write u t tmp counter (t.scnprintf value) (length (t.scnprintf value))
        ≡ ((counter + value) % 2 ^ 32, pos (length (t.scnprintf value)))
  unfolding my_write parse_delta
  my_write-scnprintf tmp counter value room small all =
      rw
        (
          my_write,
          parse_delta,
          some,
          all,
          law.copies_from tmp text len (omega (arith, texts.short value)) (omega arith) all,
          back,
          texts.reads value small,
        )
        (ap (λ c. (c, pos len)) (add_delta-signed32 counter value small))
    where
      text : List ℕ
      text = t.scnprintf value

      len : ℕ
      len = length text

      some : (len == 0 || leb 32 len) ≡ false
      some = ground (arith, texts.some_text value, texts.short value)

      back : take len (take len text ++ drop len tmp) ≡ text
      back =
          rw (take-length text)
            (take-append_short len text (drop len tmp) (omega arith) ∙ take-length text)

-- Every call of `my_write` that does not return `count` leaves the counter as it was, and returns -EINVAL for
-- a text that is empty or of 32 bytes or more, -EFAULT for one that could not be copied whole, or the error of
-- `kstrtol`; one that does return it adds the number that `kstrtol` read in the bytes copied.
pub my_write_cases :
    (u : UserCopy) (t : Numerals) (tmp from : List ℕ) (counter count : ℕ)
    → let (after, ret) = my_write u t tmp counter from count in
      let copied = u.copy_from_user tmp from count in
      ((after ≡ counter) × ((ret ≡ einval) × ((count ≡ 0) ⊎ (32 ≤ count))))
      ⊎ (((0 < count) × (count < 32))
          × (((after ≡ counter) × ((ret ≡ efault) × (0 < copied.1)))
              ⊎ ((copied.1 ≡ 0)
                  × (((after ≡ counter) × (t.kstrtol (take count copied.0) ≡ err ret))
                      ⊎ ((ret ≡ pos count)
                          × ((delta : ℤ) × (t.kstrtol (take count copied.0) ≡ ok delta)
                              × (after ≡ add_delta counter delta)))))))
unfolding my_write parse_delta
my_write_cases u t tmp from counter count = elim (Bool-cases (count == 0 || leb 32 count)) [
  | inl bad ↦ rw (my_write, parse_delta, bad) (inl (refl, (refl, ground (arith, bad))))
  | inr good ↦ elim (Bool-cases (ltb 0 (u.copy_from_user tmp from count).1)) [
    | inl short ↦
        rw (my_write, parse_delta, good, short)
          (inr (sizes good, inl (refl, (refl, ground (arith, short)))))
    | inr whole ↦ elim (Result-cases (t.kstrtol (take count (u.copy_from_user tmp from count).0))) [
      | inl (e, q) ↦
          rw (my_write, parse_delta, good, whole, q)
            (inr (sizes good, inr (zero_left whole, inl (refl, refl))))
      | inr (d, q) ↦
          rw (my_write, parse_delta, good, whole, q)
            (inr (sizes good, inr (zero_left whole, inr (refl, (d, refl, refl)))))
    ]
  ]
]
  where
    sizes : (count == 0 || leb 32 count) ≡ false → (0 < count) × (count < 32)
    sizes good = ground (arith, good)

    zero_left :
        ltb 0 (u.copy_from_user tmp from count).1 ≡ false → (u.copy_from_user tmp from count).1 ≡ 0
    zero_left whole = ground (arith, whole)
