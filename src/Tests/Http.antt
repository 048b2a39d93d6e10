-- ===== src/Tests/Http.antt =====
-- source/net/http_parse.cpp at fixed inputs.
use torfoil.Prelude.{◌≡◌, refl, true, some, [], ◌∷◌, ◌++◌, Bytes, codes, arith}
use torfoil.Bencode.{compare_keys}
use torfoil.Bytes.Hex.{to_lower, url_encode}
use torfoil.Bytes.Sanitize.{keep_front}
use torfoil.Http.{HttpRequest, Parsed, crlf, content_length, parse_http_headers}
use torfoil.Http.Form.{form_field, parse_multipart, json_escape}
use torfoil.Http.Form.Laws.{form_of, form_field-form_of}
use torfoil.Http.Laws.{IsRequest, parse_http_headers-IsRequest}

abbrev no_request : HttpRequest
no_request = record { method = []; target = []; path = []; query = []; headers = []; body = [] }

abbrev asked : Bytes
asked =
    codes "POST /a%20b?x=1 HTTP/1.1"
    ++ crlf
    ++ codes "Content-Length:  12"
    ++ crlf
    ++ codes "Host: h\t"
    ++ crlf
    ++ crlf
    ++ codes "rest"
    ++ crlf
    ++ crlf
    ++ codes "more"

abbrev asked_read : HttpRequest
asked_read = record {
  method = codes "POST";
  target = codes "/a%20b?x=1";
  path = codes "/a b";
  query = codes "x=1";
  headers = (codes "Content-Length", codes "12") ∷ (codes "Host", codes "h") ∷ [];
  body = [];
}

parse_http_headers_run : parse_http_headers no_request asked ≡ Parsed.parsed asked_read 59
unfolding parse_http_headers keep_front
parse_http_headers_run = refl

parse_http_headers-IsRequest_example : IsRequest asked asked_read 59
parse_http_headers-IsRequest_example =
    parse_http_headers-IsRequest no_request asked asked_read 59 parse_http_headers_run

content_length_run : content_length asked_read ≡ some 12
unfolding content_length compare_keys to_lower
content_length_run = refl

json_escape_run : json_escape (codes "a\"b\n") ≡ codes "a\\\"b\\n"
unfolding json_escape
json_escape_run = refl

form_field-form_of_example :
    form_field (form_of (codes "a b", codes "1&2") ((codes "c", codes "x=y") ∷ [])) (codes "c")
    ≡ codes "x=y"
unfolding compare_keys url_encode
form_field-form_of_example =
    form_field-form_of (codes "c") (codes "a b", codes "1&2") ((codes "c", codes "x=y") ∷ [])
      (ground arith) (ground arith)

abbrev upload : Bytes
upload =
    codes "--B"
    ++ crlf
    ++ codes "Content-Disposition: form-data; name=\"f\"; filename=\"t.bin\""
    ++ crlf
    ++ crlf
    ++ codes "data"
    ++ crlf
    ++ codes "--B--"

parse_multipart_run : parse_multipart (codes "multipart/form-data; boundary=B") upload ≡ (
  true,
  record { name = codes "f"; filename = codes "t.bin"; content_type = []; data_of = codes "data" }
      ∷ [],
)
unfolding parse_multipart compare_keys to_lower keep_front
parse_multipart_run = refl
