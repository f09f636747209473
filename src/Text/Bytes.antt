-- ===== src/Text/Bytes.antt =====
-- Byte strings: literals, ASCII case, prefixes, trimming.
use Prim.Native.Char.{code}
use Prim.Native.String.{String}
use dart_edge.Base.{
  ℕ, ◌+◌, ◌≡◌, refl, Bool, true, false, ◌&&◌, ◌||◌, List, [], ◌∷◌, ◌++◌, map, reverse, leb, ◌==◌,
  if◌then◌else◌,
}
use dart_edge.Base.Keys.{bytes_beq}

abbrev pub Bytes : Type 0
Bytes = List ℕ

abbrev pub Str : Type 0
Str = List ℕ

-- The bytes of pieces that follow one another.
abbrev pub concat : List Bytes → Bytes
concat [] = []
concat (piece ∷ pieces) = piece ++ concat pieces

-- The bytes of a literal, which is ASCII.
unfoldable pub text : String → Str
text String.[] = []
text (String.◌∷◌ c s) = code c ∷ text s

unfoldable pub ascii_lower : ℕ → ℕ
ascii_lower b = if leb b'A' b && leb b b'Z' then b + 32 else b

unfoldable pub to_ascii_lowercase : Str → Str
unfolding ascii_lower
to_ascii_lowercase = map ascii_lower

unfoldable pub eq_ignore_ascii_case : Str → Str → Bool
unfolding to_ascii_lowercase bytes_beq
eq_ignore_ascii_case a b = bytes_beq (to_ascii_lowercase a) (to_ascii_lowercase b)

unfoldable pub starts_with : Bytes → Bytes → Bool
starts_with xs [] = true
starts_with [] (p ∷ ps) = false
starts_with (x ∷ xs) (p ∷ ps) = x == p && starts_with xs ps

-- `char::is_whitespace` for a character of one byte.
abbrev is_space : ℕ → Bool
is_space b = leb 9 b && leb b 13 || b == 32

-- The second and third byte of the white space that starts with 0xE2.
abbrev is_space_e2 : ℕ → ℕ → Bool
is_space_e2 b c =
    b == 0x80 && (leb 0x80 c && leb c 0x8A || c == 0xA8 || c == 0xA9 || c == 0xAF)
    || b == 0x81 && c == 0x9F

abbrev is_space_2 : ℕ → ℕ → Bool
is_space_2 a b = a == 0xC2 && (b == 0x85 || b == 0xA0)

abbrev is_space_3 : ℕ → ℕ → ℕ → Bool
is_space_3 a b c =
    a == 0xE1 && b == 0x9A && c == 0x80
    || a == 0xE2 && is_space_e2 b c
    || a == 0xE3 && b == 0x80 && c == 0x80

-- Drops the white space at the head; `trim_end_rev` does so on the reversed text.
unfoldable pub trim_start : Str → Str
trim_start (a ∷ b ∷ c ∷ s) =
    let one = trim_start (b ∷ c ∷ s) in
    let two = trim_start (c ∷ s) in
    let three = trim_start s in
    if is_space a
    then one
    else if is_space_2 a b
    then two
    else if is_space_3 a b c
    then three
    else a ∷ b ∷ c ∷ s
trim_start (a ∷ b ∷ []) =
    let one = trim_start (b ∷ []) in
    if is_space a then one else if is_space_2 a b then [] else a ∷ b ∷ []
trim_start (a ∷ []) = if is_space a then [] else a ∷ []
trim_start [] = []

unfoldable pub trim_end_rev : Str → Str
trim_end_rev (c ∷ b ∷ a ∷ s) =
    let one = trim_end_rev (b ∷ a ∷ s) in
    let two = trim_end_rev (a ∷ s) in
    let three = trim_end_rev s in
    if is_space c
    then one
    else if is_space_2 b c
    then two
    else if is_space_3 a b c
    then three
    else c ∷ b ∷ a ∷ s
trim_end_rev (c ∷ b ∷ []) =
    let one = trim_end_rev (b ∷ []) in
    if is_space c then one else if is_space_2 b c then [] else c ∷ b ∷ []
trim_end_rev (c ∷ []) = if is_space c then [] else c ∷ []
trim_end_rev [] = []

unfoldable pub trim : Str → Str
unfolding trim_start trim_end_rev
trim s = reverse (trim_end_rev (reverse (trim_start s)))

trims : trim (text "  a b ") ≡ text "a b"
unfolding trim text
trims = refl

folds : eq_ignore_ascii_case (text "WebSocket") (text "websocket") ≡ true
unfolding eq_ignore_ascii_case text
folds = refl
