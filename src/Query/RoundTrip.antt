-- ===== src/Query/RoundTrip.antt =====
-- Parsing a query string gives back what a standard encoder has written.
use dart_edge.Base.{
  ℕ, zero, suc, ◌+◌, ◌-◌, ◌/◌, ◌%◌, ◌<◌, ◌≡◌, ◌≢◌, refl, ◌∙◌, ap, Bool, true, false, inl, inr, ◌⊎◌,
  List, [], ◌∷◌, ◌++◌, map, none, some, arith, ltb, ◌==◌, if◌then◌else◌, is_empty, All, All-append,
  Bool-cases, filter_by,
}
use dart_edge.Base.Keys.{bytes_eq}
use dart_edge.Base.Map
use dart_edge.Base.Map.{Map}
use dart_edge.Text.Bytes.{Bytes, Str}
use dart_edge.Text.Split.{split, split_once, join, IsPiece, Lacks, pieces-join, non_empty}
use dart_edge.Text.Utf8.{is_utf8, from_utf8_lossy_of_is_utf8}
use dart_edge.Query.{
  hex_pair, plain, decode_bytes, decode_query_component, key_value, parse_pairs, parse_query,
}

-- A hexadecimal digit, in upper case.
abbrev pub hex_digit : ℕ → ℕ
hex_digit n = if ltb n 10 then n + b'0' else n - 10 + b'A'

-- The test on every byte below a bound.
holds_to : (ℕ → Bool) → ℕ → Bool
holds_to test zero = true
holds_to test (suc n) = if test n then holds_to test n else false

holds_to_sound :
    (test : ℕ → Bool) (bound b : ℕ) → b < bound → holds_to test bound ≡ true → test b ≡ true
unfolding holds_to
holds_to_sound test zero b small all = absurd (omega arith)
holds_to_sound test (suc n) b small all = ground (arith, holds_to_sound test n b)

abbrev reads_back : ℕ → Bool
reads_back b = elim (hex_pair (hex_digit (b / 16)) (hex_digit (b % 16))) [
  | none ↦ false
  | some v ↦ v == b
]

hex_table : holds_to reads_back 256 ≡ true
unfolding holds_to hex_pair
hex_table = refl

hex_pair-hex_digit : (b : ℕ) → b < 256 → hex_pair (hex_digit (b / 16)) (hex_digit (b % 16)) ≡ some b
hex_pair-hex_digit b h = ground (arith, holds_to_sound reads_back 256 b h hex_table)

-- A text of Rust: bytes, and well formed.
pub record IsText (s : Str) : Type 0 where
  pub bytes : All (λ b. b < 256) s
  pub utf8 : is_utf8 s ≡ true

abbrev pub AreTexts : List (Str × Str) → Type 0
AreTexts [] = Unit
AreTexts ((k, v) ∷ ps) = IsText k × IsText v × AreTexts ps

-- The map that a list of parameters makes: the last one of a name counts.
abbrev pub insert_all : List (Str × Str) → Map Str Str → Map Str Str
insert_all [] m = m
insert_all ((k, v) ∷ ps) m = insert_all ps (Map.insert k v m)

-- A byte for itself, if the encoder holds it safe, or else as an escape.
module _ (safe : ℕ → Bool) where
  unfoldable pub encode : Bytes → Str
  encode [] = []
  encode (b ∷ s) =
      if safe b then b ∷ encode s else b'%' ∷ hex_digit (b / 16) ∷ hex_digit (b % 16) ∷ encode s

  -- A byte that means something in a query string is not safe.
  abbrev pub IsCareful : Type 0
  IsCareful = (safe b'%' ≡ false) × (safe b'+' ≡ false) × (safe b'&' ≡ false) × (safe b'=' ≡ false)

  unfoldable pub encode_pair : Str × Str → Str
  unfolding encode
  encode_pair (k, v) = encode k ++ (b'=' ∷ encode v)

  -- What a client writes for a list of parameters.
  unfoldable pub encode_query : List (Str × Str) → Str
  unfolding encode_pair
  encode_query ps = join b'&' (map encode_pair ps)

decode_bytes-plain :
    (b : ℕ) (s : Bytes) → b ≢ b'%' → decode_bytes (b ∷ s) ≡ plain b ∷ decode_bytes s
unfolding decode_bytes
decode_bytes-plain b [] h = refl
decode_bytes-plain b (c ∷ []) h = refl
decode_bytes-plain b (c ∷ d ∷ s) h = ground arith

decode_bytes-escape :
    (b : ℕ) (s : Bytes)
    → b < 256
    → decode_bytes (b'%' ∷ hex_digit (b / 16) ∷ hex_digit (b % 16) ∷ s) ≡ b ∷ decode_bytes s
unfolding decode_bytes
decode_bytes-escape b s h = rw (hex_pair-hex_digit b h)

parse_pairs-cons :
    (pair k v : Str) (ps : List Str) (m : Map Str Str)
    → is_empty pair ≡ false
    → key_value pair ≡ (k, v)
    → parse_pairs (pair ∷ ps) m
      ≡ parse_pairs ps (Map.insert (decode_query_component k) (decode_query_component v) m)
unfolding parse_pairs
parse_pairs-cons [] k v ps m e f = cc
parse_pairs-cons (b ∷ pair) k v ps m e f =
    ap
      (λ (kv : Str × Str).
        parse_pairs ps (Map.insert (decode_query_component kv.0) (decode_query_component kv.1) m))
      f

module _ (safe : ℕ → Bool) (careful : IsCareful safe) where
  unsafe : (b c : ℕ) → safe c ≡ false → safe b ≡ true → b ≢ c
  unsafe b c u t e = let f : safe b ≡ false = rw e u in cc

  -- If the encoder escapes `%`, `+`, `&` and `=`, and whatever else it will, then decoding gives
  -- back the bytes that it has encoded.
  pub decode_bytes-encode : (s : Bytes) → All (λ b. b < 256) s → decode_bytes (encode safe s) ≡ s
  unfolding encode
  decode_bytes-encode [] h = unfold decode_bytes in refl
  decode_bytes-encode (b ∷ s) h = elim (Bool-cases (safe b)) [
    | inl e ↦
        let p = unsafe b b'%' careful.0 e in
        let q = unsafe b b'+' careful.1 e in
        rw e (decode_bytes-plain b (encode safe s) p ∙ ground (arith, decode_bytes-encode s h.1))
    | inr e ↦
        rw e (decode_bytes-escape b (encode safe s) h.0 ∙ ap (◌∷◌ b) (decode_bytes-encode s h.1))
  ]

  encode-Lacks :
      (c : ℕ) (s : Bytes)
      → safe c ≡ false
      → (c ≡ b'&') ⊎ (c ≡ b'=')
      → All (λ b. b < 256) s
      → Lacks c (encode safe s)
  unfolding encode
  encode-Lacks c [] u k h = tt
  encode-Lacks c (b ∷ s) u k h = elim (Bool-cases (safe b)) [
    | inl e ↦ rw e (unsafe b c u e, encode-Lacks c s u k h.1)
    | inr e ↦ rw e (ground arith, (ground arith, (ground arith, encode-Lacks c s u k h.1)))
  ]

  decode_query_component-encode : (s : Str) → IsText s → decode_query_component (encode safe s) ≡ s
  unfolding decode_query_component
  decode_query_component-encode s h =
      rw (decode_bytes-encode s h.bytes) (from_utf8_lossy_of_is_utf8 s h.utf8)

  split_once-cons : (c : ℕ) (k v : Str) → Lacks c k → split_once c (k ++ (c ∷ v)) ≡ some (k, v)
  unfolding split_once
  split_once-cons c [] v h = ground arith
  split_once-cons c (b ∷ k) v h = ground (arith, split_once-cons c k v h.1)

  key_value-encode_pair :
      (k v : Str) → IsText k → key_value (encode_pair safe (k, v)) ≡ (encode safe k, encode safe v)
  unfolding encode_pair
  key_value-encode_pair k v h = rw (
    split_once-cons b'=' (encode safe k) (encode safe v)
        (encode-Lacks b'=' k careful.3 (inr refl) h.bytes),
    key_value,
  )

  encode_pair-IsPiece : (k v : Str) → IsText k → IsText v → IsPiece b'&' (encode_pair safe (k, v))
  unfolding encode_pair
  encode_pair-IsPiece k v h i = (
    not_nil (encode safe k) (encode safe v),
    All-append (λ b. b ≢ b'&') (encode safe k) (b'=' ∷ encode safe v)
        (encode-Lacks b'&' k careful.2 (inl refl) h.bytes)
        (ground arith, encode-Lacks b'&' v careful.2 (inl refl) i.bytes),
  )
    where
      not_nil : (x y : Str) → x ++ (b'=' ∷ y) ≢ []
      not_nil [] y e = cc
      not_nil (b ∷ x) y e = cc

  pairs-IsPiece :
      (ps : List (Str × Str)) → AreTexts ps → All (IsPiece b'&') (map (encode_pair safe) ps)
  pairs-IsPiece [] h = tt
  pairs-IsPiece ((k, v) ∷ ps) (a, b, h) = (encode_pair-IsPiece k v a b, pairs-IsPiece ps h)

  parse_pairs-filter :
      (ps : List Str) (m : Map Str Str) → parse_pairs ps m ≡ parse_pairs (filter_by non_empty ps) m
  unfolding parse_pairs
  parse_pairs-filter [] m = refl
  parse_pairs-filter ([] ∷ ps) m = parse_pairs-filter ps m
  parse_pairs-filter ((b ∷ p) ∷ ps) m = parse_pairs-filter ps _

  non_empty-encode_pair : (k v : Str) → is_empty (encode_pair safe (k, v)) ≡ false
  unfolding encode_pair
  non_empty-encode_pair k v = go (encode safe k)
    where
      go : (x : Str) → is_empty (x ++ (b'=' ∷ encode safe v)) ≡ false
      go [] = refl
      go (b ∷ x) = refl

  parse_pairs-encode_pair :
      (ps : List (Str × Str)) (m : Map Str Str)
      → AreTexts ps
      → parse_pairs (map (encode_pair safe) ps) m ≡ insert_all ps m
  parse_pairs-encode_pair [] m h = unfold parse_pairs in refl
  parse_pairs-encode_pair ((k, v) ∷ ps) m (a, b, h) =
      parse_pairs-cons (encode_pair safe (k, v)) (encode safe k) (encode safe v)
        (map (encode_pair safe) ps) m (non_empty-encode_pair k v) (key_value-encode_pair k v a)
      ∙ rw (decode_query_component-encode k a, decode_query_component-encode v b)
          (parse_pairs-encode_pair ps (Map.insert k v m) h)

  -- A query string that an encoder has written, with any choice of safe bytes that leaves out the
  -- percent sign, the plus, the ampersand and the equals sign, is parsed to the map of the
  -- parameters, whose names and values are any UTF-8 texts; the last one of a name counts.
  pub parse_query-encode_query :
      (ps : List (Str × Str))
      → AreTexts ps
      → parse_query (some (encode_query safe ps)) ≡ insert_all ps []
  unfolding parse_query encode_query
  parse_query-encode_query ps h =
      parse_pairs-filter (split b'&' (join b'&' (map (encode_pair safe) ps))) []
      ∙ ap (λ xs. parse_pairs xs [])
          (pieces-join b'&' (map (encode_pair safe) ps) (pairs-IsPiece ps h))
      ∙ parse_pairs-encode_pair ps [] h
