-- ===== src/Text/Utf8.antt =====
-- `std::str::from_utf8` and `String::from_utf8_lossy`.
use dart_edge.Base.{
  ℕ, zero, suc, ap, ◌-◌, ◌≡◌, refl, Bool, true, false, ◌&&◌, [], ◌∷◌, Option, none, some, leb, ltb,
  ◌==◌, if◌then◌else◌,
}
use dart_edge.Text.Bytes.{Bytes, Str}

abbrev pub within : ℕ → ℕ → ℕ → Bool
within lo hi b = leb lo b && leb b hi

abbrev is_continuation : ℕ → Bool
is_continuation = within 0x80 0xBF

-- The length of the sequence that a first byte announces, and the range of the second byte
-- (Unicode's table of well-formed sequences).
abbrev pub announced : ℕ → Option (ℕ × ℕ × ℕ)
announced b =
    if ltb b 0x80
    then some (1, 0, 0)
    else if within 0xC2 0xDF b
    then some (2, 0x80, 0xBF)
    else if b == 0xE0
    then some (3, 0xA0, 0xBF)
    else if b == 0xED
    then some (3, 0x80, 0x9F)
    else if within 0xE1 0xEF b
    then some (3, 0x80, 0xBF)
    else if b == 0xF0
    then some (4, 0x90, 0xBF)
    else if within 0xF1 0xF3 b
    then some (4, 0x80, 0xBF)
    else if b == 0xF4
    then some (4, 0x80, 0x8F)
    else none

-- How many bytes at the head of the rest continue the sequence.
unfoldable pub continued : ℕ → ℕ → ℕ → Bytes → ℕ
continued zero lo hi s = 0
continued (suc n) lo hi [] = 0
continued (suc n) lo hi (b ∷ s) =
    let more = continued n 0x80 0xBF s in if within lo hi b then suc more else 0

-- What stands at the head: a whole sequence of so many bytes, or a bad one.
pub data Head : Type 0 where
  good : ℕ → Head
  bad : ℕ → Head

unfoldable pub head_of : ℕ → Bytes → Head
unfolding continued
head_of b s = elim (announced b) [
  | none ↦ bad 1
  | some (zero, _, _) ↦ bad 1
  | some (suc n, lo, hi) ↦
      let found = continued n lo hi s in if found == n then good (suc n) else bad (suc found)
]

-- The rest is well formed after `n` more bytes of the sequence under way.
valid_from : ℕ → Bytes → Bool
valid_from zero [] = true
valid_from (suc n) [] = true
valid_from (suc n) (b ∷ s) = valid_from n s
valid_from zero (b ∷ s) = elim (head_of b s) [ good n ↦ valid_from (n - 1) s | bad n ↦ false ]

-- `from_utf8(s).is_ok()`.
unfoldable pub is_utf8 : Bytes → Bool
unfolding valid_from head_of
is_utf8 s = valid_from 0 s

-- Copies `n` bytes, or skips `k`, and goes on with the next sequence: a bad one becomes U+FFFD.
lossy_from : ℕ → ℕ → Bytes → Bytes
lossy_from zero zero [] = []
lossy_from (suc n) k [] = []
lossy_from zero (suc k) [] = []
lossy_from (suc n) k (b ∷ s) = b ∷ lossy_from n k s
lossy_from zero (suc k) (b ∷ s) = lossy_from zero k s
lossy_from zero zero (b ∷ s) = elim (head_of b s) [
  | good n ↦ b ∷ lossy_from (n - 1) 0 s
  | bad n ↦ 0xEF ∷ 0xBF ∷ 0xBD ∷ lossy_from 0 (n - 1) s
]

unfoldable pub from_utf8_lossy : Bytes → Str
unfolding lossy_from head_of
from_utf8_lossy s = lossy_from 0 0 s

lossy_from_of_valid : (n : ℕ) (s : Bytes) → valid_from n s ≡ true → lossy_from n 0 s ≡ s
unfolding valid_from lossy_from
lossy_from_of_valid zero [] h = refl
lossy_from_of_valid (suc n) [] h = refl
lossy_from_of_valid (suc n) (b ∷ s) h = ap (◌∷◌ b) (lossy_from_of_valid n s h)
lossy_from_of_valid zero (b ∷ s) h = go (head_of b s) refl h (λ m. lossy_from_of_valid m s)
  where
    go :
        (e : Head)
        → head_of b s ≡ e
        → elim e [ good n ↦ valid_from (n - 1) s | bad n ↦ false ] ≡ true
        → ((m : ℕ) → valid_from m s ≡ true → lossy_from m 0 s ≡ s)
        → lossy_from zero zero (b ∷ s) ≡ b ∷ s
    go (good n) e v ih = rw (e, lossy_from) (ap (◌∷◌ b) (ih (n - 1) v))
    go (bad n) e v ih = cc

-- Well-formed bytes are kept.
pub from_utf8_lossy_of_is_utf8 : (s : Bytes) → is_utf8 s ≡ true → from_utf8_lossy s ≡ s
unfolding is_utf8 from_utf8_lossy
from_utf8_lossy_of_is_utf8 s h = lossy_from_of_valid 0 s h

replaces :
    from_utf8_lossy (0x61 ∷ 0xE2 ∷ 0x82 ∷ 0x62 ∷ 0xFF ∷ [])
    ≡ 0x61 ∷ 0xEF ∷ 0xBF ∷ 0xBD ∷ 0x62 ∷ 0xEF ∷ 0xBF ∷ 0xBD ∷ []
unfolding from_utf8_lossy
replaces = refl
