-- ===== src/Http/MultipartBounds.antt =====
-- Where the parser of multipart forms in lib.rs reads, and that it ends.
use dart_edge.Base.{
  ℕ, zero, suc, ◌+◌, ◌≤◌, ◌<◌, ◌≡◌, refl, sym, subst, ◌∙◌, ap, Bool, true, false, ◌==◌, inl, inr,
  List, [], ◌∷◌, ◌++◌, some, length, drop, drop-drop, All, All-append, Bool-cases, arith,
  if◌then◌else◌,
}
use dart_edge.Base.Keys.{bytes_eq}
use dart_edge.Base.Result.{ok, err}
use dart_edge.Text.Bytes.{Bytes, Str, starts_with}
use dart_edge.Http.PartHeader.{crlf, dashes, after_closing}
use dart_edge.Http.Multipart.{
  ParsedMultipartFile, ParsedMultipartForm, find_bytes, read_part, close_form, parse_parts,
  parse_multipart_form,
}
use dart_edge.Http.PartRead.{
  Holds, PartRead, read_part-PartRead, then-Holds, find_bytes-found, starts_with-append,
}

-- The parts of the files follow one another.
abbrev pub AreOrdered : ℕ → List ParsedMultipartFile → Type 0
AreOrdered from [] = Unit
AreOrdered from (f ∷ fs) = (from ≤ f.body_start) × AreOrdered (f.body_start + f.body_len) fs

AreOrdered-append :
    (from to : ℕ) (fs : List ParsedMultipartFile) (f : ParsedMultipartFile)
    → AreOrdered from fs
    → from ≤ to
    → All (λ g. g.body_start + g.body_len ≤ to) fs
    → to ≤ f.body_start
    → AreOrdered from (fs ++ f ∷ [])
AreOrdered-append from to [] f o h a l = (omega arith, tt)
AreOrdered-append from to (g ∷ gs) f o h a l =
    (o.0, AreOrdered-append (g.body_start + g.body_len) to gs f o.1 a.0 a.1 l)

module _ (body boundary_marker : Bytes) where
  abbrev pub part_delimiter : Bytes
  part_delimiter = crlf ++ boundary_marker

  -- A part of the body, which ends before `limit`: at the first delimiter behind its start.
  pub record IsPart (limit : ℕ) (f : ParsedMultipartFile) : Type 0 where
    pub delimited : find_bytes body f.body_start part_delimiter ≡ some (f.body_start + f.body_len)
    pub inside : f.body_start + f.body_len + 2 ≤ limit

  pub record AreParts (limit : ℕ) (form : ParsedMultipartForm) : Type 0 where
    pub ordered : AreOrdered 0 form.files
    pub parts : All (IsPart limit) form.files

  All-IsPart :
      (n m : ℕ) (fs : List ParsedMultipartFile) → n ≤ m → All (IsPart n) fs → All (IsPart m) fs
  All-IsPart n m [] h a = tt
  All-IsPart n m (f ∷ fs) h a = (
    record { delimited = a.0.delimited; inside = omega (arith, a.0.inside) },
    All-IsPart n m fs h a.1,
  )

  ends_before :
      (n : ℕ) (fs : List ParsedMultipartFile)
      → All (IsPart n) fs
      → All (λ g. g.body_start + g.body_len ≤ n) fs
  ends_before n [] a = tt
  ends_before n (f ∷ fs) a = (omega (arith, a.0.inside), ends_before n fs a.1)

  read-AreParts :
      (cursor from : ℕ) (form : ParsedMultipartForm) (read : ParsedMultipartForm × ℕ)
      → cursor ≤ from
      → AreParts cursor form
      → PartRead body part_delimiter from form read
      → AreParts (read.1 + 2) read.0
  read-AreParts cursor from form (next, part_end) h a r =
      let start_le = (find_bytes-found body r.start part_delimiter part_end r.found).0 in
      let grown : All (IsPart (part_end + 2)) form.files =
        All-IsPart cursor (part_end + 2) form.files (omega (arith, start_le, r.behind)) a.parts in
      elim r.added [
        | inl same ↦ record { ordered = rw same a.ordered; parts = rw same grown }
        | inr (f, more, start, len) ↦
            let end : f.body_start + f.body_len ≡ part_end = omega (arith, start, len, start_le) in
            record {
              ordered = rw more (
                  AreOrdered-append 0 cursor form.files f a.ordered (omega arith)
                    (ends_before cursor form.files a.parts) (omega (arith, start, r.behind)));
              parts = rw more (
                  All-append (IsPart (part_end + 2)) form.files (f ∷ []) grown (
                    record {
                      delimited = rw start r.found ∙ ap some (sym end);
                      inside = omega (arith, end);
                    },
                    tt,
                  ));
            }
      ]

  abbrev Parsed : ParsedMultipartForm → Type 0
  Parsed = AreParts (length body)

  close_form-Holds :
      (cursor end : ℕ) (form : ParsedMultipartForm)
      → cursor ≤ length body
      → AreParts cursor form
      → Holds Parsed (close_form body end form)
  unfolding close_form
  close_form-Holds cursor end form h a =
      go ((if starts_with (drop end body) crlf then end + 2 else end) == length body)
    where
      go : (b : Bool) → Holds Parsed (if b then ok form else err after_closing)
      go true = record {
        ordered = a.ordered;
        parts = All-IsPart cursor (length body) form.files h a.parts;
      }
      go false = refl

  -- The cursor goes on in each round, so that there is a round for each byte at most.
  parse_parts-Holds :
      (n cursor : ℕ) (form : ParsedMultipartForm)
      → cursor ≤ length body
      → length body < cursor + n
      → AreParts cursor form
      → Holds Parsed (parse_parts n body boundary_marker cursor form)
  unfolding parse_parts
  parse_parts-Holds zero cursor form h k a = absurd (omega arith)
  parse_parts-Holds (suc n) cursor form h k a =
      let after = cursor + length boundary_marker in
      elim (Bool-cases (starts_with (drop after body) dashes)) [
        | inl closing ↦ rw (closing, parse_parts) (close_form-Holds cursor (after + 2) form h a)
        | inr not_closing ↦ elim (Bool-cases (starts_with (drop after body) crlf)) [
          | inr no_line ↦ rw (not_closing, no_line, parse_parts) refl
          | inl line ↦
              rw (not_closing, line, parse_parts)
                (then-Holds (PartRead body part_delimiter (after + 2) form) Parsed
                  (read_part body part_delimiter (after + 2) form) _
                  (read_part-PartRead body part_delimiter (after + 2) form)
                  λ read r.
                    let found = find_bytes-found body r.start part_delimiter read.1 r.found in
                    let aligned =
                      subst (λ xs. starts_with xs boundary_marker ≡ true) (drop-drop 2 read.1 body)
                        (starts_with-append (drop read.1 body) crlf boundary_marker found.1) in
                    rw aligned (
                      parse_parts-Holds n (read.1 + 2) read.0 (omega (arith, found.2))
                        (omega (arith, k, r.behind, found.0))
                        (read-AreParts cursor (after + 2) form read (omega arith) a r)))
        ]
      ]

-- The parser of forms always comes to an end within its rounds, and its check that it has not lost
-- the boundary never fails. If it gives a form, then the parts of the files lie in the body, in the
-- order of the form and without overlap, and each ends at the first delimiter behind its start. In
-- all other cases the body is refused for what it holds.
pub parse_multipart_form-Holds :
    (body : Bytes) (boundary : Str)
    → Holds (AreParts body (dashes ++ boundary) (length body)) (parse_multipart_form body boundary)
unfolding parse_multipart_form
parse_multipart_form-Holds body boundary =
    elim (Bool-cases (starts_with body (dashes ++ boundary))) [
      | inr missing ↦ rw (missing, parse_multipart_form) refl
      | inl there ↦
          rw (there, parse_multipart_form)
            (parse_parts-Holds body (dashes ++ boundary) (suc (length body)) 0
              (record { fields = []; files = [] }) (omega arith) (omega arith)
              (record { ordered = tt; parts = tt }))
    ]
