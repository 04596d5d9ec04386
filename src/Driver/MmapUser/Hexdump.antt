-- ===== src/Driver/MmapUser/Hexdump.antt =====
-- The lines of the hex dump.
use embedded_linux_bsp.Common.{
  ℕ, zero, suc, ◌+◌, ◌%◌, ◌≤◌, ◌<◌, ◌≡◌, refl, sym, ◌∙◌, ap, inl, inr, true, false, Bool-cases,
  ◌==◌, ltb, ltb→lt, List, [], ◌∷◌, ◌++◌, length, take, drop, length-take, length-drop,
  take-append-drop, if◌then◌else◌, arith,
}
use mathlib.Core.List.{append-nil, append_assoc}
use embedded_linux_bsp.Driver.MmapUser.{hex_byte, dump_bytes, hexdump_head}

-- The specification: the bytes of a line, and its end; a line has sixteen bytes, the last one at most as many.
pub line : List ℕ → List ℕ
line [] = 10 ∷ []
line (b ∷ bs) = hex_byte b ++ line bs

-- The lines of the bytes, with as much fuel as there are bytes.
pub lines : (fuel : ℕ) → List ℕ → List ℕ
lines zero p = []
lines (suc fuel) [] = []
lines (suc fuel) (b ∷ bs) = line (take 16 (b ∷ bs)) ++ lines fuel (drop 16 (b ∷ bs))

-- Within a line, with room for its bytes.
dump-line_short : (i : ℕ) (p : List ℕ) → i % 16 + length p < 16 → dump_bytes i p ++ 10 ∷ [] ≡ line p
unfolding dump_bytes line
dump-line_short i [] room = refl
dump-line_short i (b ∷ bs) room =
    let more : ((i + 1) % 16 == 0) ≡ false = ground (arith, room) in
    rw more (
      append_assoc (hex_byte b) (dump_bytes (i + 1) bs) (10 ∷ [])
      ∙ ap (λ l. hex_byte b ++ l) (dump-line_short (i + 1) bs (omega (arith, room))))

-- A line that is just full.
dump-line_full :
    (i : ℕ) (p rest : List ℕ)
    → 0 < length p
    → i % 16 + length p ≡ 16
    → dump_bytes i (p ++ rest) ≡ line p ++ dump_bytes (i + length p) rest
unfolding dump_bytes line
dump-line_full i [] rest some_bytes e = absurd (omega (arith, some_bytes))
dump-line_full i (b ∷ []) rest some_bytes e =
    let ended : ((i + 1) % 16 == 0) ≡ true = ground (arith, e) in
    rw ended (sym (append_assoc (hex_byte b) (10 ∷ []) (dump_bytes (i + 1) rest)))
dump-line_full i (b ∷ c ∷ bs) rest some_bytes e =
    let more : ((i + 1) % 16 == 0) ≡ false = ground (arith, e) in
    rw more (
      ap (λ l. hex_byte b ++ l)
        (dump-line_full (i + 1) (c ∷ bs) rest (omega arith) (omega (arith, e)))
      ∙ sym (append_assoc (hex_byte b) (line (c ∷ bs)) (dump_bytes (i + 1 + length (c ∷ bs)) rest))
      ∙ ap (λ (n : ℕ). line (b ∷ c ∷ bs) ++ dump_bytes n rest) (omega arith))

abbrev end_of : List ℕ → List ℕ
end_of p = if length p % 16 == 0 then [] else 10 ∷ []

take-all : (n : ℕ) (p : List ℕ) → length p ≤ n → take n p ≡ p
take-all zero [] small = refl
take-all zero (b ∷ p) small = absurd (omega (arith, small))
take-all (suc n) [] small = refl
take-all (suc n) (b ∷ p) small = ap (λ l. b ∷ l) (take-all n p (omega (arith, small)))

drop-all : (n : ℕ) (p : List ℕ) → length p ≤ n → drop n p ≡ []
drop-all zero [] small = refl
drop-all zero (b ∷ p) small = absurd (omega (arith, small))
drop-all (suc n) [] small = refl
drop-all (suc n) (b ∷ p) small = drop-all n p (omega (arith, small))

lines-nil : (fuel : ℕ) → lines fuel [] ≡ []
unfolding lines
lines-nil zero = refl
lines-nil (suc fuel) = refl

dump-last_line :
    (fuel i : ℕ) (p : List ℕ)
    → i % 16 ≡ 0
    → 0 < length p
    → length p < 16
    → dump_bytes i p ++ end_of p ≡ line (take 16 p) ++ lines fuel (drop 16 p)
dump-last_line fuel i p start some_bytes short =
    let more : (length p % 16 == 0) ≡ false = ground (arith, some_bytes, short) in
    rw
      (
        more,
        take-all 16 p (omega (arith, short)),
        drop-all 16 p (omega (arith, short)),
        lines-nil fuel,
        append-nil (line p),
      )
      (dump-line_short i p (omega (arith, start, short)))

dump-first_line :
    (i : ℕ) (p : List ℕ)
    → i % 16 ≡ 0
    → 16 ≤ length p
    → dump_bytes i p ++ end_of p
      ≡ line (take 16 p) ++ (dump_bytes (i + 16) (drop 16 p) ++ end_of (drop 16 p))
dump-first_line i p start long =
    ap (λ l. dump_bytes i l ++ end_of p) (sym (take-append-drop 16 p))
    ∙ ap (λ l. l ++ end_of p)
        (dump-line_full i (take 16 p) (drop 16 p) (omega (arith, whole))
            (omega (arith, start, whole))
          ∙ ap (λ (n : ℕ). line (take 16 p) ++ dump_bytes (i + n) (drop 16 p)) whole)
    ∙ append_assoc (line (take 16 p)) (dump_bytes (i + 16) (drop 16 p)) (end_of p)
    ∙ ap
        (λ (n : ℕ).
          line (take 16 p) ++ (dump_bytes (i + 16) (drop 16 p) ++ (if n == 0 then [] else 10 ∷ [])))
        (omega (arith, length-drop {0} 16 p, long))
  where
    whole : length (take 16 p) ≡ 16
    whole = omega (arith, length-take {0} 16 p, long)

-- From the start of a line on.
dump-lines :
    (fuel i : ℕ) (p : List ℕ)
    → i % 16 ≡ 0
    → length p ≤ fuel
    → dump_bytes i p ++ end_of p ≡ lines fuel p
unfolding lines dump_bytes
dump-lines zero i [] start enough = refl
dump-lines zero i (b ∷ bs) start enough = absurd (omega (arith, enough))
dump-lines (suc fuel) i [] start enough = refl
dump-lines (suc fuel) i (b ∷ bs) start enough = elim (Bool-cases (ltb (length (b ∷ bs)) 16)) [
  | inl short ↦ dump-last_line fuel i (b ∷ bs) start (omega arith) (ltb→lt _ 16 short)
  | inr full ↦
      let long : 16 ≤ length (b ∷ bs) = ground (arith, full) in
      dump-first_line i (b ∷ bs) start long
      ∙ ap (λ l. line (take 16 (b ∷ bs)) ++ l)
          (dump-lines fuel (i + 16) (drop 16 (b ∷ bs)) (omega (arith, start))
            (omega (arith, length-drop {0} 16 (b ∷ bs), enough, long)))
]

-- The dump of any bytes is their lines, one after the other: sixteen bytes on each but the last, which has the rest, and
-- each ended; without bytes there is none.
pub hexdump_head-lines : (p : List ℕ) → hexdump_head p ≡ lines (length p) p
unfolding hexdump_head
hexdump_head-lines p = dump-lines (length p) 0 p refl (omega arith)
