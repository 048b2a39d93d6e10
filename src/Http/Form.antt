-- ===== src/Http/Form.antt =====
-- source/net/http_parse.cpp: the fields of a form, the parts of an upload, and the escapes of what is
-- sent back.
pub mod Laws
use torfoil.Prelude.{
  ℕ, zero, suc, ◌+◌, ◌-◌, ◌*◌, ◌/◌, ◌%◌, Bool, true, false, not, ◌&&◌, ◌||◌, Option, none, some,
  List, [], ◌∷◌, ◌++◌, ltb, leb, ◌==◌, if◌then◌else◌, length, take, drop, Bytes, codes,
}
use torfoil.Bytes.Hex.{lower_all, url_decode, hex_digit}
use torfoil.Bytes.Text.{starts_with, split}
use torfoil.Magnet.{cut_at}
use torfoil.MetaInfo.Read.{same_text}
use torfoil.Http.{find_at, find_text, substr, trim_ws, header_param}

-- The pairs between the `&`, in order; one with no `=` is passed over.
unfoldable pub field_in : Bytes → List Bytes → Bytes
unfolding cut_at url_decode
field_in name [] = []
field_in name (pair ∷ pairs) =
    let later = field_in name pairs in
    elim (cut_at b'=' pair) [
      | none ↦ later
      | some (key, value) ↦ if same_text key name then url_decode value else later
    ]

unfoldable pub form_field : Bytes → Bytes → Bytes
unfolding field_in split
form_field encoded name = field_in name (split encoded b'&')

pub record MultipartPart : Type 0 where
  pub name : Bytes
  pub filename : Bytes
  pub content_type : Bytes
  pub data_of : Bytes

-- One header of a part.
part_field : Bytes → MultipartPart → MultipartPart
unfolding cut_at lower_all trim_ws header_param
part_field field part = elim (cut_at b':' field) [
  | none ↦ part
  | some (name, behind) ↦
      let key = lower_all (trim_ws name) in
      let value = trim_ws behind in
      if same_text key (codes "content-disposition")
      then record part {
        name = header_param value (codes "name");
        filename = header_param value (codes "filename");
      }
      else if same_text key (codes "content-type")
      then record part { content_type = value }
      else part
]

-- The headers of a part, up to `stop`.
pub part_fields : ℕ → Bytes → ℕ → ℕ → MultipartPart → MultipartPart
unfolding find_at part_field
part_fields zero body stop line part = part
part_fields (suc fuel) body stop line part =
    let line_end = elim (find_text (13 ∷ 10 ∷ []) line body) as (λ _. ℕ) [
      | none ↦ stop
      | some at ↦ if ltb stop at then stop else at
    ] in
    let later =
      part_fields fuel body stop (line_end + 2)
        (part_field (substr body line (line_end - line)) part) in
    if ltb line stop then later else part

-- The parts from a place behind a separator on, if every part is whole. The result has the parts
-- read, whether the text was well formed or not.
pub part_loop : ℕ → Bytes → Bytes → ℕ → Bool × List MultipartPart
unfolding starts_with find_at part_fields
part_loop zero sep body pos = (true, [])
part_loop (suc fuel) sep body pos =
    let behind = drop pos body in
    let head = pos + 2 in
    if leb (length body) pos || starts_with behind (codes "--")
    then (true, [])
    else if not (starts_with behind (13 ∷ 10 ∷ []))
    then (false, [])
    else elim (find_text (13 ∷ 10 ∷ 13 ∷ 10 ∷ []) head body) [
      | none ↦ (false, [])
      | some head_end ↦ elim (find_text (13 ∷ 10 ∷ sep) (head_end + 4) body) [
        | none ↦ (false, [])
        | some next ↦
            let blank : MultipartPart = record {
              name = [];
              filename = [];
              content_type = [];
              data_of = [];
            } in
            let part = part_fields (length body) body head_end head blank in
            let (ok, parts) = part_loop fuel sep body (next + 2 + length sep) in
            (
              ok,
              record part { data_of = substr body (head_end + 4) (next - (head_end + 4)) } ∷ parts,
            )
      ]
    ]

unfoldable pub parse_multipart : Bytes → Bytes → Bool × List MultipartPart
unfolding header_param find_at part_loop
parse_multipart content_type body =
    let boundary = header_param content_type (codes "boundary") in
    let sep = codes "--" ++ boundary in
    if length boundary == 0 then (false, []) else elim (find_text sep 0 body) [
      | none ↦ (false, [])
      | some at ↦ part_loop (length body + 1) sep body (at + length sep)
    ]

-- What stands for one character.
json_char : ℕ → Bytes
unfolding hex_digit
json_char c =
    if c == b'"'
    then b'\\' ∷ b'"' ∷ []
    else if c == b'\\'
    then b'\\' ∷ b'\\' ∷ []
    else if c == 10
    then codes "\\n"
    else if c == 13
    then codes "\\r"
    else if c == 9
    then codes "\\t"
    else if ltb c 0x20
    then codes "\\u00" ++ hex_digit (c / 16) ∷ hex_digit (c % 16) ∷ []
    else c ∷ []

unfoldable pub json_escape : Bytes → Bytes
unfolding json_char
json_escape [] = []
json_escape (c ∷ s) = json_char c ++ json_escape s

html_char : ℕ → Bytes
html_char c =
    if c == b'&'
    then codes "&amp;"
    else if c == b'<'
    then codes "&lt;"
    else if c == b'>'
    then codes "&gt;"
    else if c == b'"'
    then codes "&quot;"
    else if c == b'\''
    then codes "&#39;"
    else c ∷ []

unfoldable pub html_escape : Bytes → Bytes
unfolding html_char
html_escape [] = []
html_escape (c ∷ s) = html_char c ++ html_escape s
