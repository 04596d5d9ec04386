-- ===== src/Driver/CharDevice/Register.antt =====
-- The specification of the character device and of the misc device: a register that holds the bytes
-- of the last write. The detailed handlers implement it.
use embedded_linux_bsp.Common.{
  ℕ, ◌+◌, ◌≤◌, ◌<◌, ◌≡◌, refl, sym, ap, ◌∙◌, List, [], ◌∷◌, length, take, drop, min, ltb, ℤ, pos,
  arith, Bool-cases, inl, inr, ◌⊎◌, length-take, take-append_short, take-take,
}
use embedded_linux_bsp.Driver.User.{efault, UserCopy, IsUserCopy}
use embedded_linux_bsp.Driver.CharDevice.{
  buffer_len, Device, my_read, my_write, my_ioctl, my_open, my_release, my_fops, FileOperations,
}
use embedded_linux_bsp.Driver.CharDevice.Buffer.{IsValid, my_write-IsValid}

-- A call of a process; `from` is the memory at the pointer of a write.
pub data Call : Type 0 where
  open_file release : Call
  read : (count : ℕ) → Call
  write : (from : List ℕ) (count : ℕ) → Call
  ioctl : (cmd : ℕ) (arg : List ℕ) → Call

-- the bytes that reach the process, and the return value
abbrev pub Reply : Type 0
Reply = List ℕ × ℤ

-- The register, before and after a call with this reply. A read delivers the first bytes that the register holds; a write
-- puts at most 128 bytes in their place; opening, releasing and a command do nothing. A read that fails has delivered fewer bytes, and a write
-- that fails may have changed bytes, but not their number.
abbrev pub Allows : List ℕ → Call → Reply → List ℕ → Type 0
Allows s open_file (bytes, ret) s' = (s' ≡ s) × (bytes ≡ []) × (ret ≡ pos 0)
Allows s release (bytes, ret) s' = (s' ≡ s) × (bytes ≡ []) × (ret ≡ pos 0)
Allows s (read count) (bytes, ret) s' =
    (s' ≡ s)
    × (((bytes ≡ take (min count (length s)) s) × (ret ≡ pos (length bytes)))
        ⊎ ((length bytes < min count (length s)) × (ret ≡ efault)))
Allows s (write from count) (bytes, ret) s' =
    (bytes ≡ [])
    × (((s' ≡ take (min count 128) from) × (ret ≡ pos (length s')))
        ⊎ ((length s' ≡ length s) × (ret ≡ efault)))
Allows s (ioctl cmd arg) (bytes, ret) s' = (s' ≡ s) × (bytes ≡ arg) × (ret ≡ pos 0)

-- A sequence of calls with their replies, from one content of the register to another.
abbrev pub AllowsAll : List ℕ → List (Call × Reply) → List ℕ → Type 0
AllowsAll s [] s' = s' ≡ s
AllowsAll s ((call, reply) ∷ rest) s' =
    (mid : List ℕ) × Allows s call reply mid × AllowsAll mid rest s'

-- A process has as many bytes at its pointer as it asks to write.
abbrev pub IsBacked : List Call → Type 0
IsBacked [] = Unit
IsBacked (open_file ∷ rest) = IsBacked rest
IsBacked (release ∷ rest) = IsBacked rest
IsBacked (read count ∷ rest) = IsBacked rest
IsBacked (write from count ∷ rest) = (count ≤ length from) × IsBacked rest
IsBacked (ioctl cmd arg ∷ rest) = IsBacked rest

-- What the register holds.
abbrev pub content : Device → List ℕ
content dev = take dev.buffer_size dev.buffer

-- One call, by the driver's table.
pub answer : FileOperations → Device → Call → Device × Reply
answer fops dev open_file = let (dev', ret) = fops.open_file dev in (dev', ([], ret))
answer fops dev release = let (dev', ret) = fops.release dev in (dev', ([], ret))
answer fops dev (read count) = (dev, fops.read dev count)
answer fops dev (write from count) =
    let (dev', ret) = fops.write dev from count in (dev', ([], ret))
answer fops dev (ioctl cmd arg) =
    let (dev', bytes, ret) = fops.unlocked_ioctl dev cmd arg in (dev', (bytes, ret))

pub answer_all : FileOperations → Device → List Call → Device × List (Call × Reply)
answer_all fops dev [] = (dev, [])
answer_all fops dev (call ∷ rest) =
    let (dev', reply) = answer fops dev call in
    let (dev'', replies) = answer_all fops dev' rest in (dev'', (call, reply) ∷ replies)

module _ (u : UserCopy) where
  module _ (law : IsUserCopy u) where
    length-content : (dev : Device) → IsValid dev → length (content dev) ≡ dev.buffer_size
    length-content dev v =
        omega (arith, length-take {0} dev.buffer_size dev.buffer, v.whole, v.within)

    read-Allows :
        (dev : Device) (count : ℕ)
        → IsValid dev
        → Allows (content dev) (read count) (my_read u dev count) (content dev)
    unfolding my_read
    read-Allows dev count v = elim (Bool-cases (ltb 0 (u.copy_to_user dev.buffer n).1)) [
      | inl bad ↦ rw bad (refl, inr (ground (arith, bad, sum, size), refl))
      | inr good ↦
          rw good (refl, inl (all (ground (arith, good)), ap pos (ground (arith, good, sum))))
    ]
      where
        n : ℕ
        n = min count dev.buffer_size

        size : length (content dev) ≡ dev.buffer_size
        size = length-content dev v

        sum : length (u.copy_to_user dev.buffer n).0 + (u.copy_to_user dev.buffer n).1 ≡ n
        sum = law.adds_up dev.buffer n (omega (arith, v.whole, v.within))

        all :
            (u.copy_to_user dev.buffer n).1 ≡ 0
            → (u.copy_to_user dev.buffer n).0
              ≡ take (min count (length (content dev))) (content dev)
        all none_left =
            law.copies_to dev.buffer n (omega (arith, v.whole, v.within)) none_left
            ∙ sym (take-take n dev.buffer_size dev.buffer (omega arith))
            ∙ ap (λ k. take (min count k) (content dev)) (sym size)

    write-Allows :
        (dev : Device) (from : List ℕ) (count : ℕ)
        → IsValid dev
        → count ≤ length from
        → Allows
            (content dev)
            (write from count)
            ([], (my_write u dev from count).1)
            (content (my_write u dev from count).0)
    unfolding my_write
    write-Allows dev from count v backed =
        elim (Bool-cases (ltb 0 (u.copy_from_user dev.buffer from n).1)) [
          | inl bad ↦ rw bad (
            refl,
            inr (
              omega (
                arith,
                length-take {0} dev.buffer_size filled,
                kept,
                length-content dev v,
                v.within,
              ),
              refl,
            ),
          )
          | inr good ↦ rw good (
            refl,
            inl (
              now (ground (arith, good)),
              ap pos (omega (arith, length-take {0} n filled, kept)),
            ),
          )
        ]
      where
        n : ℕ
        n = min count buffer_len

        filled : List ℕ
        filled = (u.copy_from_user dev.buffer from n).0

        kept : length filled ≡ 128
        kept = law.keeps_length dev.buffer from n (omega (arith, v.whole)) ∙ v.whole

        now : (u.copy_from_user dev.buffer from n).1 ≡ 0 → take n filled ≡ take (min count 128) from
        now none_left =
            ap (take n) (
              law.copies_from dev.buffer from n (omega (arith, v.whole)) (omega (arith, backed))
                none_left)
            ∙ take-append_short n (take n from) (drop n dev.buffer)
                (omega (arith, length-take {0} n from, backed))
            ∙ take-take n n from (omega arith)

    -- However processes open, read, write, control and release a valid device, with copies that may fail, the replies are those of a
    -- register that holds at first the bytes that the device holds: a read that succeeds delivers the first bytes of
    -- what the last successful write put there, as many as it asks for and as there are, and returns their number; a write that
    -- succeeds puts the first of its bytes there, at most 128, and returns their number; a command changes
    -- nothing; and a failed write changes no more than the bytes, not their number. The device is valid at the end, and holds what
    -- the register then holds.
    pub answer_all-AllowsAll :
        (dev : Device) (calls : List Call)
        → IsValid dev
        → IsBacked calls
        → let (dev', replies) = answer_all (my_fops u) dev calls in
          AllowsAll (content dev) replies (content dev') × IsValid dev'
    unfolding answer_all answer my_open my_release my_ioctl
    answer_all-AllowsAll dev [] v backed = (refl, v)
    answer_all-AllowsAll dev (open_file ∷ rest) v backed =
        let (all, valid) = answer_all-AllowsAll dev rest v backed in
        ((content dev, (refl, refl, refl), all), valid)
    answer_all-AllowsAll dev (release ∷ rest) v backed =
        let (all, valid) = answer_all-AllowsAll dev rest v backed in
        ((content dev, (refl, refl, refl), all), valid)
    answer_all-AllowsAll dev (read count ∷ rest) v backed =
        let (all, valid) = answer_all-AllowsAll dev rest v backed in
        ((content dev, read-Allows dev count v, all), valid)
    answer_all-AllowsAll dev (write from count ∷ rest) v (room, backed) =
        let after : Device = (my_write u dev from count).0 in
        let (all, valid) =
          answer_all-AllowsAll after rest (my_write-IsValid u law dev from count v) backed in
        ((content after, write-Allows dev from count v room, all), valid)
    answer_all-AllowsAll dev (ioctl cmd arg ∷ rest) v backed =
        let (all, valid) = answer_all-AllowsAll dev rest v backed in
        ((content dev, (refl, refl, refl), all), valid)
