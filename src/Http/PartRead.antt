-- ===== src/Http/PartRead.antt =====
-- The reading of one part of a multipart form in lib.rs: where it looks, and how it can fail.
use dart_edge.Base.{
  ℕ, suc, ◌+◌, ◌-◌, ◌≤◌, ◌≡◌, refl, sym, subst, ◌∙◌, ap, Bool, true, false, not, ◌||◌, inl, inr,
  ◌⊎◌, List, [], ◌∷◌, ◌++◌, Option, none, some, is_empty, length, take, drop, drop-drop,
  length-drop, ltb, Bool-cases, Option-cases, arith, if◌then◌else◌,
}
use dart_edge.Base.Keys.{bytes_eq}
use dart_edge.Base.Map
use dart_edge.Base.Map.{Map}
use dart_edge.Base.Result.{Result, ok, err, ok_or, ◌>>=◌}
use dart_edge.Text.Bytes.{
  Bytes, Str, text, trim, to_ascii_lowercase, eq_ignore_ascii_case, starts_with,
}
use dart_edge.Text.Split.{split, split_once}
use dart_edge.Text.Utf8.{is_utf8}
use dart_edge.Http.PartHeader.{
  MultipartError, ParsedContentDisposition, crlf, lost_alignment, out_of_rounds, named, first_part,
  read_parameters, read_header_lines, split_crlf, bad_header_line, headers_not_utf8, not_form_data,
  no_header_end, no_disposition, no_closing, parse_part_headers, parse_content_disposition,
}
use dart_edge.Http.Multipart.{
  ParsedMultipartFile, ParsedMultipartForm, position, find_bytes, add_part, read_part,
}

length-starts_with : (xs ps : Bytes) → starts_with xs ps ≡ true → length ps ≤ length xs
unfolding starts_with
length-starts_with xs [] h = omega arith
length-starts_with [] (p ∷ ps) h = absurd (cc)
length-starts_with (x ∷ xs) (p ∷ ps) h = ground (arith, length-starts_with xs ps)

pub starts_with-append :
    (xs ps qs : Bytes)
    → starts_with xs (ps ++ qs) ≡ true
    → starts_with (drop (length ps) xs) qs ≡ true
unfolding starts_with
starts_with-append [] [] qs h = h
starts_with-append (x ∷ xs) [] qs h = h
starts_with-append [] (p ∷ ps) qs h = absurd (cc)
starts_with-append (x ∷ xs) (p ∷ ps) qs h = starts_with-append xs ps qs (ground (arith, h))

-- A position that is found is at or behind the start, and the needle stands there.
position-found :
    (haystack needle : Bytes) (from p : ℕ)
    → position haystack needle from ≡ some p
    → (k : ℕ) × (p ≡ from + k) × (starts_with (drop k haystack) needle ≡ true)
unfolding position
position-found [] needle from p h = absurd (cc)
position-found (b ∷ haystack) needle from p h =
    elim (Bool-cases (starts_with (b ∷ haystack) needle)) [
      | inl here ↦ (0, ground (arith, h, here), here)
      | inr not_here ↦
          let (k, e, s) =
            position-found haystack needle (suc from) p (rw (not_here, position) at h) in
          (suc k, omega (arith, e), s)
    ]

non_empty_length : (xs : Bytes) → is_empty xs ≡ false → 1 ≤ length xs
non_empty_length [] h = absurd (cc)
non_empty_length (x ∷ xs) h = omega arith

-- The same for a search in a body, which then holds the needle whole.
pub find_bytes-found :
    (body : Bytes) (start : ℕ) (needle : Bytes) (p : ℕ)
    → find_bytes body start needle ≡ some p
    → (start ≤ p) × (starts_with (drop p body) needle ≡ true) × (p + length needle ≤ length body)
unfolding find_bytes
find_bytes-found body start needle p h =
    let guard =
      is_empty needle || ltb (length body) start || ltb (length body - start) (length needle) in
    elim (Bool-cases guard) [
      | inl e ↦ absurd (ground (arith, h, e))
      | inr e ↦
          let (k, f, s) =
            position-found (drop start body) needle start p (rw (e, find_bytes) at h) in
          let there : starts_with (drop p body) needle ≡ true =
            subst (λ xs. starts_with xs needle ≡ true)
              (drop-drop k start body ∙ ap (λ n. drop n body) (sym f)) s in
          (
            omega (arith, f),
            there,
            omega (
              arith,
              non_empty_length needle (ground (arith, e)),
              length-starts_with (drop p body) needle there,
              length-drop p body,
            ),
          )
    ]

-- The errors that the parser only gives if it has lost its place, or never ends.
abbrev pub is_internal : MultipartError → Bool
is_internal lost_alignment = true
is_internal out_of_rounds = true
is_internal _ = false

-- A result that is as `Q` says, or an error that is not internal.
abbrev pub Holds : {A : Type 0} → (A → Type 0) → Result A MultipartError → Type 0
Holds Q (ok a) = Q a
Holds Q (err e) = is_internal e ≡ false

abbrev Any : {A : Type 0} → A → Type 0
Any a = Unit

>>=-Holds :
    {A B : Type 0} (Q : B → Type 0) (r : Result A MultipartError)
    (next : A → Result B MultipartError)
    → Holds Any r
    → ((a : A) → r ≡ ok a → Holds Q (next a))
    → Holds Q (r >>= next)
>>=-Holds Q (ok a) next h k = k a refl
>>=-Holds Q (err e) next h k = h

pub then-Holds :
    {A B : Type 0} (P : A → Type 0) (Q : B → Type 0) (r : Result A MultipartError)
    (next : A → Result B MultipartError)
    → Holds P r
    → ((a : A) → P a → Holds Q (next a))
    → Holds Q (r >>= next)
then-Holds P Q (ok a) next h k = k a h
then-Holds P Q (err e) next h k = h

ok_or-Any :
    {A : Type 0} (o : Option A) (e : MultipartError) → is_internal e ≡ false → Holds Any (ok_or o e)
ok_or-Any none e h = h
ok_or-Any (some a) e h = tt

ok_or-eq-ok :
    {A : Type 0} (o : Option A) (e : MultipartError) (a : A) → ok_or o e ≡ ok a → o ≡ some a
ok_or-eq-ok none e a h = cc
ok_or-eq-ok (some b) e a h = ground arith

read_header_lines-Any :
    (lines : List Str) (headers : Map Str Str) → Holds Any (read_header_lines lines headers)
unfolding read_header_lines
read_header_lines-Any [] headers = tt
read_header_lines-Any ([] ∷ lines) headers = read_header_lines-Any lines headers
read_header_lines-Any ((b ∷ line) ∷ lines) headers =
    go (split_once b':' (b ∷ line)) (λ m. read_header_lines-Any lines m)
  where
    go :
        (o : Option (Str × Str))
        → ((m : Map Str Str) → Holds Any (read_header_lines lines m))
        → Holds Any (elim o [
          | none ↦ err (bad_header_line (b ∷ line))
          | some (name, value) ↦
              read_header_lines lines
                (Map.insert (to_ascii_lowercase (trim name)) (trim value) headers)
        ])
    go none rest = refl
    go (some (name, value)) rest = rest _

parse_part_headers-Any : (block : Bytes) → Holds Any (parse_part_headers block)
unfolding parse_part_headers
parse_part_headers-Any block = go (is_utf8 block)
  where
    go :
        (b : Bool)
        → Holds Any (if b then read_header_lines (split_crlf block) [] else err headers_not_utf8)
    go true = read_header_lines-Any (split_crlf block) []
    go false = refl

named-Any : (p : Option Str × Option Str) → Holds Any (named p)
named-Any (none, filename) = refl
named-Any (some name, filename) = tt

parse_content_disposition-Any : (value : Str) → Holds Any (parse_content_disposition value)
unfolding parse_content_disposition
parse_content_disposition-Any value =
    go (eq_ignore_ascii_case (trim (first_part (split b';' value))) (text "form-data"))
  where
    go :
        (b : Bool)
        → Holds Any (
            if not b
            then err not_form_data
            else named (read_parameters (drop 1 (split b';' value)) none none))
    go true = named-Any (read_parameters (drop 1 (split b';' value)) none none)
    go false = refl

-- The form is as before, or has one file more, from the start of the part to its end.
abbrev pub Added : ParsedMultipartForm → ℕ → ℕ → ParsedMultipartForm → Type 0
Added form start part_end next =
    (next.files ≡ form.files)
    ⊎ ((f : ParsedMultipartFile) × (next.files ≡ form.files ++ f ∷ [])
        × (f.body_start ≡ start)
        × (f.body_len ≡ part_end - start))

add_part-Added :
    (body : Bytes) (form : ParsedMultipartForm) (headers : Map Str Str)
    (disposition : ParsedContentDisposition) (start part_end : ℕ)
    → Holds (Added form start part_end) (add_part body form headers disposition start part_end)
unfolding add_part
add_part-Added body form headers disposition start part_end =
    let part_body = take (part_end - start) (drop start body) in
    elim (Option-cases disposition.filename) [
      | inl e ↦ elim (Bool-cases (is_utf8 part_body)) [
        | inl u ↦ rw (e, u, add_part) (inl refl)
        | inr n ↦ rw (e, n, add_part) refl
      ]
      | inr (filename, e) ↦ rw (e, add_part) (inr (_, refl, refl, refl))
    ]

-- Where a part lies that has been read.
pub record PartRead (body delimiter : Bytes) (cursor : ℕ) (form : ParsedMultipartForm)
    (read : ParsedMultipartForm × ℕ) : Type 0 where
  pub start : ℕ
  pub behind : cursor ≤ start
  pub found : find_bytes body start delimiter ≡ some read.1
  pub added : Added form start read.1 read.0

pub read_part-PartRead :
    (body delimiter : Bytes) (cursor : ℕ) (form : ParsedMultipartForm)
    → Holds (PartRead body delimiter cursor form) (read_part body delimiter cursor form)
unfolding read_part
read_part-PartRead body delimiter cursor form =
    let Q = PartRead body delimiter cursor form in
    >>=-Holds Q (ok_or (find_bytes body cursor (crlf ++ crlf)) no_header_end) _ (ok_or-Any _ _ refl)
      λ headers_end e.
        >>=-Holds Q (parse_part_headers (take (headers_end - cursor) (drop cursor body))) _
          (parse_part_headers-Any _)
          λ headers f.
            >>=-Holds Q (ok_or (Map.get (text "content-disposition") headers) no_disposition) _
              (ok_or-Any _ _ refl)
              λ value g.
                >>=-Holds Q (parse_content_disposition value) _
                  (parse_content_disposition-Any value)
                  λ disposition h.
                    >>=-Holds Q (ok_or (find_bytes body (headers_end + 4) delimiter) no_closing) _
                      (ok_or-Any _ _ refl)
                      λ part_end i.
                        then-Holds (Added form (headers_end + 4) part_end) Q
                          (add_part body form headers disposition (headers_end + 4) part_end) _
                          (add_part-Added body form headers disposition (headers_end + 4) part_end)
                          λ next added. record {
                            start = headers_end + 4;
                            behind = omega (
                              arith,
                              (find_bytes-found body cursor (crlf ++ crlf) headers_end
                                  (ok_or-eq-ok _ _ headers_end e)).0,
                            );
                            found = ok_or-eq-ok _ _ part_end i;
                            added = added;
                          }
