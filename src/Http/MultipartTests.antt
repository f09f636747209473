-- ===== src/Http/MultipartTests.antt =====
-- The parser of multipart forms in lib.rs on concrete forms.
use dart_edge.Base.{◌≡◌, refl, [], ◌∷◌, ◌++◌, none, some, length}
use dart_edge.Base.Keys.{bytes_eq, bytes_beq}
use dart_edge.Base.Map
use dart_edge.Base.Result.{ok}
use dart_edge.Text.Bytes.{
  Bytes, text, trim, trim_start, trim_end_rev, starts_with, eq_ignore_ascii_case,
  to_ascii_lowercase, ascii_lower,
}
use dart_edge.Text.Split.{split, split_once}
use dart_edge.Text.Utf8.{is_utf8, head_of, continued}
use dart_edge.Routing.Compile.{content_type_essence}
use dart_edge.Http.PartHeader.{
  crlf, dashes, trim_header_parameter, find_boundary, parse_multipart_boundary, split_crlf,
  read_header_lines, parse_part_headers, read_parameters, parse_content_disposition,
}
use dart_edge.Http.Multipart.{
  ParsedMultipartForm, position, find_bytes, add_part, read_part, close_form, parse_parts,
  parse_multipart_form,
}
use dart_edge.Http.PartRead.{Holds}
use dart_edge.Http.MultipartBounds.{AreParts, parse_multipart_form-Holds}

-- A file of two bytes, and the end.
abbrev one_file : Bytes
one_file =
    text "--b"
    ++ crlf
    ++ text "Content-Disposition: form-data; name=f; filename=t"
    ++ crlf
    ++ crlf
    ++ text "hi"
    ++ crlf
    ++ text "--b--"

abbrev one_file_form : ParsedMultipartForm
one_file_form = record {
  fields = [];
  files =
      record {
        field_name = text "f";
        filename = some (text "t");
        content_type = none;
        body_start = 59;
        body_len = 2;
      }
      ∷ [];
}

reads_file : parse_multipart_form one_file (text "b") ≡ ok one_file_form
unfolding parse_multipart_form parse_parts read_part close_form add_part find_bytes position
    parse_part_headers parse_content_disposition read_parameters read_header_lines split_crlf
    trim_header_parameter text starts_with is_utf8 head_of continued split split_once trim
    trim_start trim_end_rev eq_ignore_ascii_case to_ascii_lowercase ascii_lower bytes_beq Map.get
    Map.insert
reads_file = refl

parse_multipart_form-Holds_example :
    Holds
      (AreParts one_file (dashes ++ text "b") (length one_file))
      (parse_multipart_form one_file (text "b"))
parse_multipart_form-Holds_example = parse_multipart_form-Holds one_file (text "b")

reads_boundary :
    parse_multipart_boundary (text "multipart/form-data; charset=x; boundary=b") ≡ ok (text "b")
unfolding parse_multipart_boundary find_boundary trim_header_parameter content_type_essence text
    starts_with split split_once trim trim_start trim_end_rev eq_ignore_ascii_case
    to_ascii_lowercase ascii_lower bytes_beq
reads_boundary = refl

-- A semicolon in a quoted file name cuts it: what is left has one quote.
cut_name :
    parse_content_disposition
      (text "form-data; name=f; filename=" ++ b'"' ∷ text "a;b" ++ b'"' ∷ [])
    ≡ ok (record { name = text "f"; filename = some (b'"' ∷ text "a") })
unfolding parse_content_disposition read_parameters trim_header_parameter text starts_with split
    split_once trim trim_start trim_end_rev eq_ignore_ascii_case to_ascii_lowercase ascii_lower
    bytes_beq
cut_name = refl
