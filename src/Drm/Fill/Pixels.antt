-- ===== src/Drm/Fill/Pixels.antt =====
-- Which bytes of the buffer and around it `fill_color` changes, and to what.
use embedded_linux_bsp.Common.{
  ℕ, zero, suc, ◌+◌, ◌-◌, ◌*◌, ◌%◌, ◌^◌, ◌≤◌, ◌<◌, ltb, leb, ◌==◌, ◌&&◌, if◌then◌else◌, ◌≡◌, refl,
  arith, ap, ◌≢◌, ◌⊎◌, inl, inr,
}
use native.Mathlib.Nat.{mul-le-mul_right}
use native.Mathlib.Decide.{dec_lt, ℕ_discrete}
use embedded_linux_bsp.Drm.Fill.{
  Memory, byte_of, write32, row_offset, fill_row, fill_rows, fill_color,
}

write32_lem :
    (m : Memory) (row x v a : ℕ)
    → write32 m (row + 4 * x) v a
      ≡ (if leb (row + 4 * x) a && ltb a (row + 4 * x + 4) then byte_of v ((a - row) % 4) else m a)
unfolding write32
write32_lem m row x v a = ground (arith, inside)
  where
    inside :
        row + 4 * x ≤ a
        → a < row + 4 * x + 4
        → byte_of v (a - (row + 4 * x)) ≡ byte_of v ((a - row) % 4)
    inside lo hi = ap (byte_of v) (omega arith)

-- A row: the words from `x` on, and nothing else.
fill_row_lem :
    (n row x color : ℕ) (m : Memory) (a : ℕ)
    → fill_row n row x color m a ≡ (
        if leb (row + 4 * x) a && ltb a (row + 4 * (x + n))
        then byte_of color ((a - row) % 4)
        else m a)
unfolding fill_row
fill_row_lem zero row x color m a = ground arith
fill_row_lem (suc n) row x color m a = ground (
  arith,
  fill_row_lem n row (x + 1) color (write32 m (row + 4 * x) color) a,
  write32_lem m row x color a,
)

add_suc_lem : (y n : ℕ) → y + 1 + n ≡ y + suc n
add_suc_lem y n = omega arith

row_below : (y z pitch : ℕ) → y < z → y * pitch + pitch ≤ z * pitch
row_below y z pitch h = omega (arith, mul-le-mul_right pitch h)

-- Byte `r` of a row, for `r` below the pitch, lies in no other row.
row_apart :
    (y z pitch r : ℕ)
    → r < pitch
    → y ≢ z
    → (y * pitch + pitch ≤ z * pitch + r) ⊎ (z * pitch + r < y * pitch)
row_apart y z pitch r h ne = elim (dec_lt y z) [
  | yes lt ↦ inl (omega (arith, row_below y z pitch lt))
  | no ge ↦ inr (omega (arith, row_below z y pitch (omega arith)))
]

module _ (map pitch width color : ℕ) (fits : 4 * width ≤ pitch) where
  -- Row `y`, seen at byte `r` of row `z`.
  row_at :
      (y z r : ℕ) (m : Memory)
      → y * pitch < 2 ^ 32
      → r < pitch
      → fill_row width (map + row_offset y pitch) 0 color m (map + z * pitch + r)
        ≡ (if y == z && ltb r (4 * width) then byte_of color (r % 4) else m (map + z * pitch + r))
  unfolding row_offset
  row_at y z r m small h = elim (ℕ_discrete y z) [
    | yes same ↦ rw (← same) (
        ground (
          arith,
          fill_row_lem width (map + y * pitch % 2 ^ 32) 0 color m (map + y * pitch + r),
          ap (byte_of color) (here),
        ))
    | no differ ↦ ground (
      arith,
      fill_row_lem width (map + y * pitch % 2 ^ 32) 0 color m (map + z * pitch + r),
      row_apart y z pitch r h differ,
    )
  ]
    where
      here : (map + y * pitch + r - (map + y * pitch % 2 ^ 32)) % 4 ≡ r % 4
      here = omega arith

  rows_at :
      (n y z r : ℕ) (m : Memory)
      → (y + n) * pitch ≤ 2 ^ 32
      → r < pitch
      → fill_rows n map pitch width y color m (map + z * pitch + r) ≡ (
          if leb y z && ltb z (y + n) && ltb r (4 * width)
          then byte_of color (r % 4)
          else m (map + z * pitch + r))
  unfolding fill_rows
  rows_at zero y z r m small h = ground arith
  rows_at (suc n) y z r m small h = ground (
    arith,
    rows_at n (y + 1) z r (fill_row width (map + row_offset y pitch) 0 color m) later h,
    row_at y z r m now h,
  )
    where
      later : (y + 1 + n) * pitch ≤ 2 ^ 32
      later = rw (add_suc_lem y n) small

      now : y * pitch < 2 ^ 32
      now = omega (arith, row_below y (y + suc n) pitch (omega arith))

  -- If the rows fit the pitch and the buffer has at most 2^32 bytes, then after `fill_color` each byte `r` of each row
  -- `z` of the buffer is that byte of the colour (little-endian, every fourth byte alike) within the width, and
  -- what it was in the padding of the row.
  pub fill_color_pixels :
      (height z r : ℕ) (m : Memory)
      → height * pitch ≤ 2 ^ 32
      → z < height
      → r < pitch
      → fill_color map pitch width height color m (map + z * pitch + r)
        ≡ (if ltb r (4 * width) then byte_of color (r % 4) else m (map + z * pitch + r))
  unfolding fill_color
  fill_color_pixels height z r m small hz hr =
      ground (arith, rows_at height 0 z r m (omega arith) hr)

  rows_outside :
      (n y a : ℕ) (m : Memory)
      → (y + n) * pitch ≤ 2 ^ 32
      → (a < map) ⊎ (map + (y + n) * pitch ≤ a)
      → fill_rows n map pitch width y color m a ≡ m a
  unfolding fill_rows row_offset
  rows_outside zero y a m small out = refl
  rows_outside (suc n) y a m small out = ground (
    arith,
    rows_outside n (y + 1) a (fill_row width (map + row_offset y pitch) 0 color m) later away,
    fill_row_lem width (map + row_offset y pitch) 0 color m a,
    below,
    offset,
  )
    where
      offset : row_offset y pitch ≡ y * pitch
      offset = elim (dec_lt 0 pitch) [
        | yes h ↦ omega (arith, row_below y (y + suc n) pitch (omega arith))
        | no h ↦ let e : pitch ≡ 0 = omega arith in rw e (omega arith)
      ]

      below : y * pitch + pitch ≤ (y + suc n) * pitch
      below = row_below y (y + suc n) pitch (omega arith)

      later : (y + 1 + n) * pitch ≤ 2 ^ 32
      later = rw (add_suc_lem y n) small

      away : (a < map) ⊎ (map + (y + 1 + n) * pitch ≤ a)
      away = rw (add_suc_lem y n) out

  -- If the rows fit the pitch and the buffer has at most 2^32 bytes, then `fill_color` changes no byte before
  -- or after the buffer.
  pub fill_color_outside :
      (height a : ℕ) (m : Memory)
      → height * pitch ≤ 2 ^ 32
      → (a < map) ⊎ (map + height * pitch ≤ a)
      → fill_color map pitch width height color m a ≡ m a
  unfolding fill_color
  fill_color_outside height a m small out = rows_outside height 0 a m (omega arith) (omega arith)
