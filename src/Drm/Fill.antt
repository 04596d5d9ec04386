-- ===== src/Drm/Fill.antt =====
-- `fill_color` of code/examples/drm/drm_atomic_commit_flow/userspace/atomic_modeset_minimal.c, on the
-- bytes of the mapped buffer.
pub mod Pixels
use embedded_linux_bsp.Common.{
  ℕ, zero, suc, ◌+◌, ◌-◌, ◌*◌, ◌/◌, ◌%◌, ◌^◌, ◌≤◌, ◌<◌, ltb, leb, ◌&&◌, if◌then◌else◌,
}

-- The bytes of the address space.
abbrev pub Memory : Type 0
Memory = ℕ → ℕ

-- Byte `k` of a little-endian 32-bit word.
pub byte_of : ℕ → ℕ → ℕ
byte_of v k = v / 256 ^ k % 256

-- `*p = v` for a `uint32_t *p`
pub write32 : Memory → ℕ → ℕ → Memory
write32 m p v a = if leb p a && ltb a (p + 4) then byte_of v (a - p) else m a

-- `y * buf->pitch` is a product of two `uint32_t`.
pub row_offset : ℕ → ℕ → ℕ
row_offset y pitch = y * pitch % 2 ^ 32

-- `row[x] = color` for `n` values of `x`
pub fill_row : ℕ → ℕ → ℕ → ℕ → Memory → Memory
fill_row zero row x color m = m
fill_row (suc n) row x color m = fill_row n row (x + 1) color (write32 m (row + 4 * x) color)

-- the loop over `n` values of `y`
pub fill_rows : ℕ → ℕ → ℕ → ℕ → ℕ → ℕ → Memory → Memory
fill_rows zero map pitch width y color m = m
fill_rows (suc n) map pitch width y color m =
    fill_rows n map pitch width (y + 1) color (fill_row width (map + row_offset y pitch) 0 color m)

-- `map` and `pitch` are the buffer's.
pub fill_color : ℕ → ℕ → ℕ → ℕ → ℕ → Memory → Memory
fill_color map pitch width height color = fill_rows height map pitch width 0 color
