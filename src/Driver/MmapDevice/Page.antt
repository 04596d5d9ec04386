-- ===== src/Driver/MmapDevice/Page.antt =====
-- What the shared page of mmap_dev.c shows: what its `my_init` puts there, and what is written later.
use embedded_linux_bsp.Common.{
  ℕ, ◌+◌, ◌-◌, ◌≤◌, ◌<◌, ◌≡◌, refl, ◌∙◌, ap, min, List, [], ◌∷◌, ◌++◌, length, take, drop,
  replicate, length-append, length-take, length-drop, take-append_short, take-take, pos, some,
  arith,
}
use embedded_linux_bsp.Driver.User.{UserCopy, IsUserCopy}
use embedded_linux_bsp.Driver.MmapDevice.{page_size, State, my_read}

-- `snprintf` of a text without conversions to memory of so many bytes: the text, cut to leave one byte, and a
-- zero.
pub snprintf : (size : ℕ) (text old : List ℕ) → List ℕ
snprintf size text old = let n = min (length text) (size - 1) in take n text ++ 0 ∷ drop (n + 1) old

-- "hello from kernel page! (mmap shared)" and the end of the line
abbrev pub greeting : List ℕ
greeting =
    104 ∷ 101 ∷ 108 ∷ 108 ∷ 111 ∷ 32 ∷ 102 ∷ 114 ∷ 111 ∷ 109 ∷ 32 ∷ 107 ∷ 101 ∷ 114 ∷ 110 ∷ 101
    ∷ 108 ∷ 32 ∷ 112 ∷ 97 ∷ 103 ∷ 101 ∷ 33 ∷ 32 ∷ 40 ∷ 109 ∷ 109 ∷ 97 ∷ 112 ∷ 32 ∷ 115 ∷ 104 ∷ 97
    ∷ 114 ∷ 101 ∷ 100 ∷ 41 ∷ 10 ∷ []

-- The page after `my_init`.
pub first_page : List ℕ
first_page = snprintf page_size greeting (replicate page_size 0)

-- The page keeps its size.
pub length-snprintf :
    (size : ℕ) (text old : List ℕ)
    → 0 < size
    → length old ≡ size
    → length (snprintf size text old) ≡ size
unfolding snprintf
length-snprintf size text old some_room whole = omega (
  arith,
  length-append {0} (take (min (length text) (size - 1)) text)
      (0 ∷ drop (min (length text) (size - 1) + 1) old),
  length-take {0} (min (length text) (size - 1)) text,
  length-drop {0} (min (length text) (size - 1) + 1) old,
  whole,
)

take-snprintf :
    (size count : ℕ) (text old : List ℕ)
    → length text < size
    → count ≤ length text
    → take count (snprintf size text old) ≡ take count text
unfolding snprintf
take-snprintf size count text old room small =
    take-append_short count (take n text) _ (omega (arith, length-take {0} n text, fits))
    ∙ take-take count n text (omega (arith, fits))
  where
    n : ℕ
    n = min (length text) (size - 1)

    fits : n ≡ length text
    fits = omega arith

-- A read of at most as many bytes as a text has that was put into the page, with a copy that leaves nothing uncopied,
-- returns the first bytes of the text, whatever the page showed before.
pub my_read-snprintf :
    (u : UserCopy) (law : IsUserCopy u) (text old : List ℕ) (st : State) (addr count : ℕ)
    → st.kaddr ≡ some addr
    → length old ≡ 4096
    → length text < 4096
    → count ≤ length text
    → (u.copy_to_user (snprintf page_size text old) count).1 ≡ 0
    → my_read u (λ a. snprintf page_size text old) st count ≡ (take count text, pos count)
unfolding my_read
my_read-snprintf u law text old st addr count there whole room small all =
    rw (there, my_read, size, all)
      (ap (λ l. (l, pos count))
        (law.copies_to page count (omega (arith, kept)) all
          ∙ take-snprintf page_size count text old room small))
  where
    page : List ℕ
    page = snprintf page_size text old

    kept : length page ≡ 4096
    kept = length-snprintf page_size text old (omega arith) whole

    size : min count 4096 ≡ count
    size = omega arith

-- A read looks only at what the driver's address shows.
pub my_read-at :
    (u : UserCopy) (memory : ℕ → List ℕ) (st : State) (addr count : ℕ)
    → st.kaddr ≡ some addr
    → my_read u memory st count ≡ my_read u (λ a. memory addr) st count
unfolding my_read
my_read-at u memory st addr count there = rw (there, my_read) refl
