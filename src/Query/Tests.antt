-- ===== src/Query/Tests.antt =====
-- The theorems on query strings at the parameters of a search.
use dart_edge.Base.{ℕ, ◌<◌, ◌≡◌, refl, Bool, true, ◌&&◌, List, [], ◌∷◌, some, arith, leb, All}
use dart_edge.Text.Bytes.{Str, text}
use dart_edge.Text.Utf8.{is_utf8}
use dart_edge.Query.{parse_query, decode_bytes}
use dart_edge.Query.RoundTrip.{
  IsCareful, IsText, AreTexts, encode, encode_query, insert_all, parse_query-encode_query,
  decode_bytes-encode,
}

-- The lower-case letters stand for themselves.
abbrev is_lower : ℕ → Bool
is_lower b = leb b'a' b && leb b b'z'

is_lower-IsCareful : IsCareful is_lower
is_lower-IsCareful = (refl, refl, refl, refl)

-- A name with an umlaut, a blank in a value, and the characters that separate.
abbrev search : List (Str × Str)
search = (0xC3 ∷ 0xBC ∷ [], text "a b") ∷ (text "q", text "x&y=z%+") ∷ []

byte-IsText : (s : Str) → All (λ b. b < 256) s → is_utf8 s ≡ true → IsText s
byte-IsText s b u = record { bytes = b; utf8 = u }

search-AreTexts : AreTexts search
unfolding is_utf8 text
search-AreTexts = (
  byte-IsText (0xC3 ∷ 0xBC ∷ []) (omega arith, (omega arith, tt)) refl,
  byte-IsText (text "a b") (omega arith, (omega arith, (omega arith, tt))) refl,
  (
    byte-IsText (text "q") (omega arith, tt) refl,
    byte-IsText (text "x&y=z%+")
        (
          omega arith,
          (
            omega arith,
            (omega arith, (omega arith, (omega arith, (omega arith, (omega arith, tt))))),
          ),
        )
        refl,
    tt,
  ),
)

parse_query-encode_query_example :
    parse_query (some (encode_query is_lower search)) ≡ insert_all search []
parse_query-encode_query_example =
    parse_query-encode_query is_lower is_lower-IsCareful search search-AreTexts

decode_bytes-encode_example : decode_bytes (encode is_lower (0 ∷ 255 ∷ 37 ∷ [])) ≡ 0 ∷ 255 ∷ 37 ∷ []
decode_bytes-encode_example =
    decode_bytes-encode is_lower is_lower-IsCareful (0 ∷ 255 ∷ 37 ∷ [])
      (omega arith, (omega arith, (omega arith, tt)))
