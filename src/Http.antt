-- ===== src/Http.antt =====
-- source/net/http_parse.cpp and include/net/http_parse.hpp: requests, forms and escapes of the remote
-- control. `std::string::find` gives a position or npos, which is none here; every text that is looked
-- for has a character.
pub mod Form
pub mod Laws
pub mod Loops
use torfoil.Prelude.{
  ℕ, zero, suc, ◌+◌, ◌-◌, ◌*◌, ◌/◌, ◌%◌, Bool, true, false, not, ◌&&◌, ◌||◌, Option, none, some,
  List, [], ◌∷◌, ◌++◌, ltb, leb, ◌==◌, if◌then◌else◌, length, take, drop, get_or, Bytes, codes,
  ◌>>=◌,
}
use torfoil.Bytes.Hex.{to_lower, lower_all, url_decode, hex_digit}
use torfoil.Bytes.Sanitize.{drop_back}
use torfoil.Bytes.Text.{starts_with, split, is_space}
use torfoil.Bencode.{is_digit}
use torfoil.Magnet.{cut_at, digits_value}
use torfoil.MetaInfo.Read.{same_text}

is_blank : ℕ → Bool
is_blank c = c == b' ' || c == 9

skip_blanks : Bytes → Bytes
unfolding is_blank
skip_blanks [] = []
skip_blanks (c ∷ s) = if is_blank c then skip_blanks s else c ∷ s

unfoldable pub trim_ws : Bytes → Bytes
unfolding skip_blanks drop_back
trim_ws s = drop_back (λ c. is_blank c || c == 13) (skip_blanks s)

-- The text from `pos` on is given.
unfoldable pub find_at : Bytes → ℕ → Bytes → Option ℕ
unfolding starts_with
find_at needle pos [] = none
find_at needle pos (c ∷ s) =
    let later = find_at needle (suc pos) s in if starts_with (c ∷ s) needle then some pos else later

abbrev pub find_text : Bytes → ℕ → Bytes → Option ℕ
find_text needle pos s = find_at needle pos (drop pos s)

abbrev pub substr : Bytes → ℕ → ℕ → Bytes
substr s pos n = take n (drop pos s)

-- The position, or another one in place of npos.
abbrev pub or_at : ℕ → Option ℕ → ℕ
or_at default none = default
or_at default (some pos) = pos

-- The value of a parameter that begins at `start`.
pub param_at : Bytes → ℕ → Bytes
unfolding find_at trim_ws
param_at value start =
    if ltb start (length value) && get_or value start 0 == b'"'
    then elim (find_text (b'"' ∷ []) (start + 1) value) [
      | none ↦ []
      | some end ↦ substr value (start + 1) (end - (start + 1))
    ]
    else (let end = or_at (length value) (find_text (b';' ∷ []) start value) in
        trim_ws (substr value start (end - start)))

-- Each round goes on behind the place found, so as many rounds as the text is long are enough.
pub param_loop : ℕ → Bytes → Bytes → Bytes → ℕ → Bytes
unfolding param_at find_at
param_loop zero haystack needle value pos = []
param_loop (suc fuel) haystack needle value pos = elim (find_text needle pos haystack) [
  | none ↦ []
  | some at ↦
      let before = get_or haystack (at - 1) 0 in
      let later = param_loop fuel haystack needle value (at + length needle) in
      if at == 0 || before == b';' || before == b' '
      then param_at value (at + length needle)
      else later
]

unfoldable pub header_param : Bytes → Bytes → Bytes
unfolding param_loop lower_all
header_param value key =
    param_loop (length value + 1) (lower_all value) (lower_all key ++ b'=' ∷ []) value 0

pub record HttpRequest : Type 0 where
  pub method : Bytes
  pub target : Bytes
  pub path : Bytes
  pub query : Bytes
  pub headers : List (Bytes × Bytes)
  pub body : Bytes

header_of : Bytes → List (Bytes × Bytes) → Bytes
unfolding lower_all
header_of key [] = []
header_of key ((k, v) ∷ headers) = if same_text (lower_all k) key then v else header_of key headers

unfoldable pub header : HttpRequest → Bytes → Bytes
unfolding header_of
header r name = header_of (lower_all name) r.headers

-- `strtoll` in base 10 where it reads a digit and its result is not negative.
signed_value : Bytes → Option ℕ
unfolding digits_value
signed_value [] = none
signed_value (c ∷ s) =
    let digits =
      λ (t : Bytes). (if is_digit (get_or t 0 0) then some (digits_value 0 t) else none) in
    if c == b'+'
    then digits s
    else if c == b'-'
    then elim (digits s) [ none ↦ none | some n ↦ if n == 0 then some 0 else none ]
    else digits (c ∷ s)

skip_spaces : Bytes → Bytes
unfolding is_space
skip_spaces [] = []
skip_spaces (c ∷ s) = if is_space c then skip_spaces s else c ∷ s

-- None stands for -1.
unfoldable pub content_length : HttpRequest → Option ℕ
unfolding header signed_value skip_spaces
content_length r = signed_value (skip_spaces (header r (codes "content-length")))

-- The outcome of parse_http_headers: `complete` is set for all but the first, and a request comes with
-- the offset of its body.
pub data Parsed : Type 0 where
  incomplete refused : Parsed
  parsed : HttpRequest → ℕ → Parsed

abbrev pub crlf : Bytes
crlf = 13 ∷ 10 ∷ []

-- The fields up to `stop`, each behind the end of the one before.
pub field_loop : ℕ → Bytes → ℕ → ℕ → List (Bytes × Bytes)
unfolding find_at trim_ws cut_at
field_loop zero raw stop pos = []
field_loop (suc fuel) raw stop pos =
    let found = or_at stop (find_text crlf pos raw) in
    let end = if ltb stop found then stop else found in
    let later = field_loop fuel raw stop (end + 2) in
    if ltb pos stop
    then elim (cut_at b':' (substr raw pos (end - pos))) [
      | none ↦ later
      | some (name, value) ↦ (trim_ws name, trim_ws value) ∷ later
    ]
    else []

unfoldable pub with_target : HttpRequest → Bytes → HttpRequest
unfolding cut_at url_decode
with_target r target = elim (cut_at b'?' target) [
  | none ↦ record r { target = target; path = url_decode target }
  | some (path, query) ↦ record r { target = target; path = url_decode path; query = query }
]

-- The request line: method, target and version.
unfoldable pub request_line : HttpRequest → Bytes → Option HttpRequest
unfolding with_target cut_at
request_line r line = do
  parts ← cut_at b' ' line
  more ← cut_at b' ' parts.1
  if length parts.0 == 0 || length more.0 == 0
      then none
      else some (with_target (record r { method = parts.0 }) more.0)

-- The request line and the fields, once the blank line is found at `stop`.
unfoldable pub line_outcome : HttpRequest → Bytes → ℕ → ℕ → Parsed
unfolding field_loop request_line
line_outcome out raw stop line_end =
    if ltb stop line_end then Parsed.refused else elim (request_line out (take line_end raw)) [
      | none ↦ Parsed.refused
      | some r ↦
          Parsed.parsed (record r { headers = field_loop (length raw) raw stop (line_end + 2) })
            (stop + 4)
    ]

unfoldable pub parse_http_headers : HttpRequest → Bytes → Parsed
unfolding find_at line_outcome
parse_http_headers out raw = elim (find_text (crlf ++ crlf) 0 raw) [
  | none ↦ if ltb (16 * 1024) (length raw) then Parsed.refused else Parsed.incomplete
  | some stop ↦ elim (find_text crlf 0 raw) [
    | none ↦ Parsed.refused
    | some line_end ↦ line_outcome out raw stop line_end
  ]
]
