-- ===== src/Base/Words.antt =====
-- Machine words: a value below 2 ^ 64 and the wrap-around of the atomic operations.
use Prim.Native.Nat.{ℕ, ◌+◌, ◌%◌, min}

abbrev pub word : ℕ
word = 18446744073709551616

-- `usize::MAX` and `u64::MAX`.
abbrev pub word_max : ℕ
word_max = 18446744073709551615

-- What `fetch_add(1)` and `fetch_sub(1)` store.
abbrev pub wrapping_inc : ℕ → ℕ
wrapping_inc a = (a + 1) % word

abbrev pub wrapping_dec : ℕ → ℕ
wrapping_dec a = (a + word_max) % word

-- `usize::saturating_add`; `saturating_sub` is `◌-◌`.
abbrev pub saturating_add : ℕ → ℕ → ℕ
saturating_add a b = min (a + b) word_max
