-- ===== src/Query.antt =====
-- packages/dart_edge_http_server_runtime/rust/src/lib.rs: the query string (lines 4362 to 4413).
pub mod RoundTrip
mod Tests
use Prim.Native.Nat.{bit_or}
use dart_edge.Base.{
  ℕ, ◌+◌, ◌-◌, ◌*◌, ◌%◌, ◌≡◌, refl, Bool, true, false, ◌&&◌, List, [], ◌∷◌, Option, none, some, leb,
  ◌==◌, if◌then◌else◌, is_empty,
}
use dart_edge.Base.Keys.{bytes_eq}
use dart_edge.Base.Map
use dart_edge.Base.Map.{Map}
use dart_edge.Text.Bytes.{Bytes, Str, text}
use dart_edge.Text.Split.{split, split_once}
use dart_edge.Text.Utf8.{from_utf8_lossy}

unfoldable pub hex_value : ℕ → Option ℕ
hex_value byte =
    if leb b'0' byte && leb byte b'9'
    then some (byte - b'0')
    else if leb b'a' byte && leb byte b'f'
    then some (byte - b'a' + 10)
    else if leb b'A' byte && leb byte b'F'
    then some (byte - b'A' + 10)
    else none

-- `(high << 4) | low`, on `u8`.
unfoldable pub hex_pair : ℕ → ℕ → Option ℕ
unfolding hex_value
hex_pair h l = elim (hex_value h) [
  | none ↦ none
  | some high ↦ elim (hex_value l) [ none ↦ none | some low ↦ some (bit_or (high * 16 % 256) low) ]
]

-- A byte that starts no escape.
abbrev pub plain : ℕ → ℕ
plain b = if b == b'+' then b' ' else b

-- The loop of `decode_query_component`, over the bytes from `index` on. An escape wants two bytes
-- after the percent sign.
unfoldable pub decode_bytes : Bytes → Bytes
decode_bytes [] = []
decode_bytes (b ∷ []) = plain b ∷ []
decode_bytes (b ∷ h ∷ []) = plain b ∷ decode_bytes (h ∷ [])
decode_bytes (b ∷ h ∷ l ∷ s) =
    let next = decode_bytes (h ∷ l ∷ s) in
    let after = decode_bytes s in
    if b == b'%'
    then elim (hex_pair h l) [ none ↦ b ∷ next | some byte ↦ byte ∷ after ]
    else plain b ∷ next

unfoldable pub decode_query_component : Str → Str
decode_query_component value = from_utf8_lossy (decode_bytes value)

-- `split_once('=').unwrap_or((pair, ""))`.
abbrev pub key_value : Str → Str × Str
key_value pair = elim (split_once b'=' pair) [ none ↦ (pair, []) | some (k, v) ↦ (k, v) ]

-- The loop of `parse_query`.
unfoldable pub parse_pairs : List Str → Map Str Str → Map Str Str
parse_pairs [] result = result
parse_pairs (pair ∷ pairs) result =
    let (k, v) = key_value pair in
    parse_pairs pairs (
      if is_empty pair
      then result
      else Map.insert (decode_query_component k) (decode_query_component v) result)

unfoldable pub parse_query : Option Str → Map Str Str
unfolding parse_pairs
parse_query none = []
parse_query (some query) = parse_pairs (split b'&' query) []

-- The runtime's own test of percent-encoded components.
decodes :
    parse_query (some (text "name=caf%C3%A9&q=a+b&bad=%zz&&flag"))
    ≡ (text "name", 99 ∷ 97 ∷ 102 ∷ 0xC3 ∷ 0xA9 ∷ [])
      ∷ (text "q", text "a b")
      ∷ (text "bad", text "%zz")
      ∷ (text "flag", [])
      ∷ []
unfolding parse_query decode_query_component decode_bytes hex_pair from_utf8_lossy split split_once
    text Map.insert dart_edge.Base.Keys.bytes_beq
decodes = refl
