-- ===== src/HashChain/Hex.antt =====
-- The reader's side of `print_hex`: a line of digits gives the bytes back.
use embedded_linux_bsp.Common.{
  ℕ, ◌+◌, ◌*◌, ◌-◌, ◌<◌, ◌≡◌, refl, List, [], ◌∷◌, All, ltb, if◌then◌else◌, arith, ◌/◌, ◌%◌,
}
use embedded_linux_bsp.HashChain.{hex, hex_digit}

-- The reader's side: the value of a digit, and of a line of digits.
digit_value : ℕ → ℕ
digit_value c = if ltb c b'a' then c - b'0' else c - b'a' + 10

pub unhex : List ℕ → List ℕ
unhex [] = []
unhex (_ ∷ []) = []
unhex (h ∷ l ∷ rest) = (digit_value h * 16 + digit_value l) ∷ unhex rest

digit_value-hex_digit : (d : ℕ) → d < 16 → digit_value (hex_digit d) ≡ d
unfolding digit_value hex_digit
digit_value-hex_digit d h = ground arith

-- For bytes, the digits that `print_hex` writes give the bytes back.
pub unhex-hex : (bs : List ℕ) → All (λ b. b < 256) bs → unhex (hex bs) ≡ bs
unfolding unhex hex
unhex-hex [] h = refl
unhex-hex (b ∷ bs) h =
    ground (arith, digit_value-hex_digit (b / 16), digit_value-hex_digit (b % 16), unhex-hex bs h.1)
