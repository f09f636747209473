-- ===== src/Http/Multipart.antt =====
-- lib.rs: forms of the type multipart/form-data (lines 754 to 770, 4464 to 4538, 4602 to 4611). The
-- slices of the body are written with `drop` and `take`.
use dart_edge.Base.{
  ℕ, zero, suc, ◌+◌, ◌-◌, true, false, not, ◌||◌, List, [], ◌∷◌, ◌++◌, Option, none, some, is_empty,
  length, take, drop, ltb, ◌==◌, if◌then◌else◌,
}
use dart_edge.Base.Keys.{bytes_eq}
use dart_edge.Base.Map
use dart_edge.Base.Map.{Map}
use dart_edge.Base.Result.{Result, ok, err, ok_or, ◌>>=◌}
use dart_edge.Text.Bytes.{Bytes, Str, text, starts_with}
use dart_edge.Text.Utf8.{is_utf8}
use dart_edge.Http.PartHeader.{
  ParsedContentDisposition, MultipartError, no_first_boundary, after_closing, bad_separator,
  no_header_end, no_disposition, no_closing, field_not_utf8, lost_alignment, out_of_rounds, crlf,
  dashes, parse_part_headers, parse_content_disposition,
}

pub record ParsedMultipartField : Type 0 where
  pub name : Str
  pub value : Str

pub record ParsedMultipartFile : Type 0 where
  pub field_name : Str
  pub filename : Option Str
  pub content_type : Option Str
  pub body_start : ℕ
  pub body_len : ℕ

pub record ParsedMultipartForm : Type 0 where
  pub fields : List ParsedMultipartField
  pub files : List ParsedMultipartFile

-- `windows(..).position(..)`, counted from `at`.
unfoldable pub position : Bytes → Bytes → ℕ → Option ℕ
position [] needle at = none
position (b ∷ haystack) needle at =
    let later = position haystack needle (suc at) in
    if starts_with (b ∷ haystack) needle then some at else later

unfoldable pub find_bytes : Bytes → ℕ → Bytes → Option ℕ
unfolding position
find_bytes haystack start needle =
    if is_empty needle
      || ltb (length haystack) start
      || ltb (length haystack - start) (length needle)
    then none
    else position (drop start haystack) needle start

-- A part from `body_start` to `part_end`, with its headers and its disposition.
unfoldable pub add_part :
    Bytes
    → ParsedMultipartForm
    → Map Str Str
    → ParsedContentDisposition
    → ℕ
    → ℕ
    → Result ParsedMultipartForm MultipartError
add_part body form part_headers disposition body_start part_end =
    let part_body = take (part_end - body_start) (drop body_start body) in
    elim disposition.filename [
      | some _ ↦ ok (record form {
        files =
            form.files
            ++ record {
              field_name = disposition.name;
              filename = disposition.filename;
              content_type = Map.get (text "content-type") part_headers;
              body_start = body_start;
              body_len = part_end - body_start;
            }
              ∷ [];
      })
      | none ↦
          if is_utf8 part_body
          then ok (record form {
            fields = form.fields ++ record { name = disposition.name; value = part_body } ∷ [];
          })
          else err (field_not_utf8 disposition.name)
    ]

-- From the first header of a part: the form with the part, and where the part ends.
unfoldable pub read_part :
    Bytes → Bytes → ℕ → ParsedMultipartForm → Result (ParsedMultipartForm × ℕ) MultipartError
unfolding find_bytes parse_part_headers parse_content_disposition add_part
read_part body part_delimiter cursor form = do
  headers_end ← ok_or (find_bytes body cursor (crlf ++ crlf)) no_header_end
  part_headers ← parse_part_headers (take (headers_end - cursor) (drop cursor body))
  content_disposition ← ok_or (Map.get (text "content-disposition") part_headers) no_disposition
  disposition ← parse_content_disposition content_disposition
  part_end ← ok_or (find_bytes body (headers_end + 4) part_delimiter) no_closing
  next ← add_part body form part_headers disposition (headers_end + 4) part_end
  ok (next, part_end)

-- After the two dashes of the closing boundary.
unfoldable pub close_form :
    Bytes → ℕ → ParsedMultipartForm → Result ParsedMultipartForm MultipartError
close_form body cursor form =
    let end = if starts_with (drop cursor body) crlf then cursor + 2 else cursor in
    if end == length body then ok form else err after_closing

-- The loop, from a boundary on; it needs at most one round for each byte of the body.
unfoldable pub parse_parts :
    ℕ → Bytes → Bytes → ℕ → ParsedMultipartForm → Result ParsedMultipartForm MultipartError
unfolding read_part close_form
parse_parts zero body boundary_marker cursor form = err out_of_rounds
parse_parts (suc rounds) body boundary_marker cursor form =
    let after = cursor + length boundary_marker in
    elim (starts_with (drop after body) dashes) [
      | true ↦ close_form body (after + 2) form
      | false ↦ elim (starts_with (drop after body) crlf) [
        | false ↦ err bad_separator
        | true ↦ do
          (next, part_end) ← read_part body (crlf ++ boundary_marker) (after + 2) form
          elim (starts_with (drop (part_end + 2) body) boundary_marker) [
            | true ↦ parse_parts rounds body boundary_marker (part_end + 2) next
            | false ↦ err lost_alignment
          ]
      ]
    ]

unfoldable pub parse_multipart_form : Bytes → Str → Result ParsedMultipartForm MultipartError
unfolding parse_parts
parse_multipart_form body boundary =
    let boundary_marker = dashes ++ boundary in
    if not (starts_with body boundary_marker)
    then err no_first_boundary
    else parse_parts (suc (length body)) body boundary_marker 0 (record { fields = []; files = [] })
