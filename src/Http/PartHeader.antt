-- ===== src/Http/PartHeader.antt =====
-- lib.rs: the headers of multipart/form-data (lines 772 to 775, 4441 to 4462, 4540 to 4600).
use dart_edge.Base.{
  ℕ, ◌-◌, Bool, true, false, not, ◌&&◌, ◌||◌, List, [], ◌∷◌, Option, none, some, is_empty, last,
  length, take, drop, leb, ◌==◌, if◌then◌else◌,
}
use dart_edge.Base.Keys.{bytes_eq}
use dart_edge.Base.Map
use dart_edge.Base.Map.{Map}
use dart_edge.Base.Result.{Result, ok, err}
use dart_edge.Text.Bytes.{
  Bytes, Str, text, trim, starts_with, eq_ignore_ascii_case, to_ascii_lowercase,
}
use dart_edge.Text.Split.{split, split_once}
use dart_edge.Text.Utf8.{is_utf8}
use dart_edge.Routing.Compile.{content_type_essence}

pub record ParsedContentDisposition : Type 0 where
  pub name : Str
  pub filename : Option Str

-- The messages; `out_of_rounds` stands for a loop that has not ended.
pub data MultipartError : Type 0 where
  not_multipart empty_boundary missing_boundary : MultipartError
  no_first_boundary after_closing bad_separator no_header_end : MultipartError
  headers_not_utf8 : MultipartError
  bad_header_line : Str → MultipartError
  no_disposition not_form_data no_field_name no_closing : MultipartError
  field_not_utf8 : Str → MultipartError
  lost_alignment out_of_rounds : MultipartError

abbrev pub crlf : Bytes
crlf = 13 ∷ 10 ∷ []

abbrev pub dashes : Bytes
dashes = b'-' ∷ b'-' ∷ []

abbrev is_quoted : Str → Bool
is_quoted value =
    leb 2 (length value) && starts_with value (b'"' ∷ []) && ends_in_quote (last value)
  where
    ends_in_quote : Option ℕ → Bool
    ends_in_quote none = false
    ends_in_quote (some b) = b == b'"'

unfoldable pub trim_header_parameter : Str → Str
trim_header_parameter value =
    if is_quoted value then take (length value - 2) (drop 1 value) else value

-- The parameter of a header, if it has the form `name=value`.
abbrev pub parameter_of : Str → Option (Str × Str)
parameter_of part = split_once b'=' (trim part)

unfoldable pub find_boundary : List Str → Result Str MultipartError
unfolding trim_header_parameter
find_boundary [] = err missing_boundary
find_boundary (parameter ∷ rest) =
    let later = find_boundary rest in
    elim (parameter_of parameter) [
      | none ↦ later
      | some (name, value) ↦
          if not (eq_ignore_ascii_case (trim name) (text "boundary"))
          then later
          else if is_empty (trim_header_parameter (trim value))
          then err empty_boundary
          else ok (trim_header_parameter (trim value))
    ]

unfoldable pub parse_multipart_boundary : Str → Result Str MultipartError
unfolding find_boundary
parse_multipart_boundary content_type =
    if not (eq_ignore_ascii_case (content_type_essence content_type) (text "multipart/form-data"))
    then err not_multipart
    else find_boundary (drop 1 (split b';' content_type))

abbrev onto_first : ℕ → List Str → List Str
onto_first b [] = (b ∷ []) ∷ []
onto_first b (p ∷ ps) = (b ∷ p) ∷ ps

-- `split("\r\n")`.
unfoldable pub split_crlf : Str → List Str
split_crlf [] = [] ∷ []
split_crlf (a ∷ []) = (a ∷ []) ∷ []
split_crlf (a ∷ b ∷ rest) = elim (a == 13 && b == 10) [
  | true ↦ [] ∷ split_crlf rest
  | false ↦ onto_first a (split_crlf (b ∷ rest))
]

unfoldable pub read_header_lines : List Str → Map Str Str → Result (Map Str Str) MultipartError
read_header_lines [] headers = ok headers
read_header_lines ([] ∷ lines) headers = read_header_lines lines headers
read_header_lines ((b ∷ line) ∷ lines) headers = elim (split_once b':' (b ∷ line)) [
  | none ↦ err (bad_header_line (b ∷ line))
  | some (name, value) ↦
      read_header_lines lines (Map.insert (to_ascii_lowercase (trim name)) (trim value) headers)
]

unfoldable pub parse_part_headers : Bytes → Result (Map Str Str) MultipartError
unfolding split_crlf read_header_lines
parse_part_headers header_block =
    if is_utf8 header_block
    then read_header_lines (split_crlf header_block) []
    else err headers_not_utf8

-- The parameters of a disposition: the last name and the last file name count.
unfoldable pub read_parameters : List Str → Option Str → Option Str → Option Str × Option Str
unfolding trim_header_parameter
read_parameters [] name filename = (name, filename)
read_parameters (part ∷ parts) name filename = elim (parameter_of part) [
  | none ↦ read_parameters parts name filename
  | some (parameter_name, parameter_value) ↦
      let decoded_value = trim_header_parameter (trim parameter_value) in
      if eq_ignore_ascii_case (trim parameter_name) (text "name")
      then read_parameters parts (some decoded_value) filename
      else if eq_ignore_ascii_case (trim parameter_name) (text "filename")
          || eq_ignore_ascii_case (trim parameter_name) (text "filename*")
      then read_parameters parts name (some decoded_value)
      else read_parameters parts name filename
]

abbrev pub named : Option Str × Option Str → Result ParsedContentDisposition MultipartError
named (none, filename) = err no_field_name
named (some name, filename) = ok (record { name = name; filename = filename })

abbrev pub first_part : List Str → Str
first_part [] = []
first_part (kind ∷ parts) = kind

unfoldable pub parse_content_disposition : Str → Result ParsedContentDisposition MultipartError
unfolding read_parameters
parse_content_disposition value =
    if not (eq_ignore_ascii_case (trim (first_part (split b';' value))) (text "form-data"))
    then err not_form_data
    else named (read_parameters (drop 1 (split b';' value)) none none)
