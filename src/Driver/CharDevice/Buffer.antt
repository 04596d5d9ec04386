-- ===== src/Driver/CharDevice/Buffer.antt =====
-- What the handlers of the character device and of the misc device keep and deliver.
use embedded_linux_bsp.Common.{
  false, ℕ, ◌+◌, ◌≤◌, ◌<◌, ◌≡◌, refl, ap, ◌∙◌, List, ◌++◌, length, take, drop, length-append,
  take-append_short, take-take, length-take, min, ltb, pos, arith, Bool-cases, inl, inr, ◌⊎◌,
  ltb→lt, subst,
}
use embedded_linux_bsp.Driver.User.{efault, UserCopy, IsUserCopy}
use embedded_linux_bsp.Driver.CharDevice.{buffer_len, Device, my_read, my_write}

pub record IsValid (dev : Device) : Type 0 where
  pub whole : length dev.buffer ≡ 128
  pub within : dev.buffer_size ≤ 128

module _ (u : UserCopy) (law : IsUserCopy u) where
  -- A valid device, whose buffer has its 128 bytes of which no more than 128 count, is valid after a
  -- write, which may fail or succeed and be of any length.
  pub my_write-IsValid :
      (dev : Device) (from : List ℕ) (count : ℕ)
      → IsValid dev
      → IsValid (my_write u dev from count).0
  unfolding my_write
  my_write-IsValid dev from count v =
      elim (Bool-cases (ltb 0 (u.copy_from_user dev.buffer from (min count buffer_len)).1)) [
        | inl bad ↦ rw bad (record {
          whole = law.keeps_length dev.buffer from _ room ∙ v.whole;
          within = v.within;
        })
        | inr good ↦ rw good (record {
          whole = law.keeps_length dev.buffer from _ room ∙ v.whole;
          within = omega arith;
        })
      ]
    where
      room : min count buffer_len ≤ length dev.buffer
      room = omega (arith, v.whole)

module _ (u : UserCopy) (law : IsUserCopy u) where
  my_write_all :
      (dev : Device) (from : List ℕ) (count : ℕ)
      → IsValid dev
      → count ≤ length from
      → (u.copy_from_user dev.buffer from (min count 128)).1 ≡ 0
      → my_write u dev from count ≡ (
        record {
          buffer = take (min count 128) from ++ drop (min count 128) dev.buffer;
          buffer_size = min count 128;
        },
        pos (min count 128),
      )
  unfolding my_write
  my_write_all dev from count v h none_left =
      rw
        (
          none_left,
          law.copies_from dev.buffer from (min count 128) (omega (arith, v.whole)) (omega arith)
              none_left,
        )
        refl

  my_read_all :
      (dev : Device) (asked : ℕ)
      → dev.buffer_size ≤ length dev.buffer
      → (u.copy_to_user dev.buffer (min asked dev.buffer_size)).1 ≡ 0
      → my_read u dev asked
        ≡ (take (min asked dev.buffer_size) dev.buffer, pos (min asked dev.buffer_size))
  unfolding my_read
  my_read_all dev asked h none_left =
      rw (none_left, law.copies_to dev.buffer (min asked dev.buffer_size) (omega arith) none_left)
        refl

-- After a write of `count` bytes that reported no bytes left uncopied, the write has returned the smaller of
-- `count` and 128, and a read of `asked` bytes of which none is left uncopied delivers the first bytes of what
-- was written, as many as `asked`, `count` and 128 allow, and returns their number.
pub read-write :
    (u : UserCopy) (dev : Device) (from : List ℕ) (count asked : ℕ)
    → IsUserCopy u
    → IsValid dev
    → count ≤ length from
    → (u.copy_from_user dev.buffer from (min count 128)).1 ≡ 0
    → (u.copy_to_user (my_write u dev from count).0.buffer (min asked (min count 128))).1 ≡ 0
    → let (dev', written) = my_write u dev from count in
      let n = min asked (min count 128) in
      (written ≡ pos (min count 128)) × (my_read u dev' asked ≡ (take n from, pos n))
unfolding my_write my_read
read-write u dev from count asked law v h all_written all_read = rw written (
  refl,
  my_read_all u law _ asked holds (
        subst (λ p. (u.copy_to_user p.0.buffer (min asked (min count 128))).1 ≡ 0) written all_read)
      ∙ ap (λ l. (l, pos (min asked (min count 128)))) same_bytes,
)
  where
    len : ℕ
    len = min count 128

    written :
        my_write u dev from count
        ≡ (record { buffer = take len from ++ drop len dev.buffer; buffer_size = len }, pos len)
    written = my_write_all u law dev from count v h all_written

    holds : len ≤ length (take len from ++ drop len dev.buffer)
    holds =
        omega
          (arith, length-append {0} (take len from) (drop len dev.buffer), length-take {0} len from)

    same_bytes :
        take (min asked len) (take len from ++ drop len dev.buffer) ≡ take (min asked len) from
    same_bytes =
        take-append_short (min asked len) _ _ (omega (arith, length-take {0} len from))
        ∙ take-take (min asked len) len from (omega arith)

-- A read of a valid device delivers at most `count` bytes and at most `buffer_size`; it returns how many it
-- delivered if `copy_to_user` leaves none of the smaller of the two uncopied, and -EFAULT if it leaves some.
pub my_read-within :
    (u : UserCopy) (dev : Device) (count : ℕ)
    → IsUserCopy u
    → IsValid dev
    → let (bytes, ret) = my_read u dev count in
      let left = (u.copy_to_user dev.buffer (min count dev.buffer_size)).1 in
      (length bytes ≤ count)
      × (length bytes ≤ dev.buffer_size)
      × (((left ≡ 0) × (ret ≡ pos (length bytes))) ⊎ ((0 < left) × (ret ≡ efault)))
unfolding my_read
my_read-within u dev count law v = elim (Bool-cases (ltb 0 left)) [
  | inl bad ↦ rw bad (omega (arith, size), omega (arith, size), inr (ltb→lt _ _ bad, refl))
  | inr good ↦ rw good (
    omega (arith, size),
    omega (arith, size),
    inl (none good, ap pos (omega (arith, size, none good))),
  )
]
  where
    left : ℕ
    left = (u.copy_to_user dev.buffer (min count dev.buffer_size)).1

    none : ltb 0 left ≡ false → left ≡ 0
    none good = ground (arith, good)

    size :
        length (u.copy_to_user dev.buffer (min count dev.buffer_size)).0 + left
        ≡ min count dev.buffer_size
    size = law.adds_up dev.buffer (min count dev.buffer_size) (omega (arith, v.whole, v.within))
