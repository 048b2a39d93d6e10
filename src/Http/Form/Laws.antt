-- ===== src/Http/Form/Laws.antt =====
-- source/net/http_parse.cpp: fields of a form that was encoded, and escapes.
use torfoil.Prelude.{
  ℕ, none, some, ◌≡◌, ◌≢◌, refl, true, false, List, [], ◌∷◌, ◌++◌, ◌==◌, if◌then◌else◌, All,
  All-append, IsByte, map, ◌⊎◌, Bytes, arith, ap, ◌∙◌,
}
use torfoil.Bytes.Hex.{url_encode, url_decode, url_decode-url_encode, url_encode-IsUrlSafe}
use torfoil.Bytes.Text.{split}
use torfoil.Bytes.Text.Laws.{split-append, split_whole, Lacks}
use torfoil.Magnet.{cut_at}
use torfoil.MetaInfo.Read.{same_text}
use torfoil.Http.Form.{field_in, form_field, html_char, html_escape}

-- A form: pairs of a key and a value, both encoded.
abbrev pub form_of : Bytes × Bytes → List (Bytes × Bytes) → Bytes
form_of (key, value) [] = url_encode key ++ b'=' ∷ url_encode value
form_of (key, value) (next ∷ fields) =
    (url_encode key ++ b'=' ∷ url_encode value) ++ b'&' ∷ form_of next fields

-- The value of the first pair with a key.
abbrev pub value_of : Bytes → List (Bytes × Bytes) → Bytes
value_of name [] = []
value_of name ((key, value) ∷ fields) =
    if same_text (url_encode key) name then value else value_of name fields

abbrev pub IsField : Bytes × Bytes → Type 0
IsField (key, value) = All IsByte key × All IsByte value

All-mono : {P Q : ℕ → Type 0} (s : Bytes) → ((c : ℕ) → P c → Q c) → All P s → All Q s
All-mono [] f h = tt
All-mono (c ∷ s) f h = (f c h.0, All-mono s f h.1)

encoded-Lacks_and : (s : Bytes) → All IsByte s → Lacks b'&' (url_encode s)
encoded-Lacks_and s h = All-mono (url_encode s) (λ c safe. ground arith) (url_encode-IsUrlSafe s h)

encoded-Lacks_equals : (s : Bytes) → All IsByte s → Lacks b'=' (url_encode s)
encoded-Lacks_equals s h =
    All-mono (url_encode s) (λ c safe. ground arith) (url_encode-IsUrlSafe s h)

cut_at-append :
    (sep : ℕ) (key value : Bytes)
    → Lacks sep key
    → cut_at sep (key ++ sep ∷ value) ≡ some (key, value)
unfolding cut_at
cut_at-append sep [] value h = let same : (sep == sep) ≡ true = ground arith in rw same refl
cut_at-append sep (c ∷ key) value (other, h) =
    let it : (c == sep) ≡ false = ground arith in rw (it, cut_at-append sep key value h) refl

pair_of : Bytes × Bytes → Bytes
pair_of (key, value) = url_encode key ++ b'=' ∷ url_encode value

pair_of-Lacks : (field : Bytes × Bytes) → IsField field → Lacks b'&' (pair_of field)
unfolding pair_of
pair_of-Lacks (key, value) (hk, hv) =
    All-append (λ c. c ≢ b'&') (url_encode key) (b'=' ∷ url_encode value) (encoded-Lacks_and key hk)
      ((λ e. omega arith), encoded-Lacks_and value hv)

field_in-pair_of :
    (name : Bytes) (field : Bytes × Bytes) (pairs : List Bytes) (later : Bytes)
    → IsField field
    → field_in name pairs ≡ later
    → field_in name (pair_of field ∷ pairs)
      ≡ (if same_text (url_encode field.0) name then field.1 else later)
unfolding pair_of field_in
field_in-pair_of name (key, value) pairs later (hk, hv) h =
    ap
      (λ o. elim o as (λ _. Bytes) [
        | none ↦ field_in name pairs
        | some (k, v) ↦ if same_text k name then url_decode v else field_in name pairs
      ])
      (cut_at-append b'=' (url_encode key) (url_encode value) (encoded-Lacks_equals key hk))
    ∙ ap (λ v. if same_text (url_encode key) name then v else field_in name pairs)
        (url_decode-url_encode value hv)
    ∙ ap (λ l. if same_text (url_encode key) name then value else l) h

split-form_of :
    (first : Bytes × Bytes) (fields : List (Bytes × Bytes))
    → IsField first
    → All IsField fields
    → split (form_of first fields) b'&' ≡ map pair_of (first ∷ fields)
unfolding pair_of
split-form_of (key, value) [] h hs =
    split_whole (pair_of (key, value)) b'&' (pair_of-Lacks (key, value) h)
split-form_of (key, value) (next ∷ fields) h hs =
    split-append (pair_of (key, value)) (form_of next fields) b'&'
    ∙ ap (λ parts. parts ++ split (form_of next fields) b'&')
        (split_whole (pair_of (key, value)) b'&' (pair_of-Lacks (key, value) h))
    ∙ ap (λ parts. pair_of (key, value) ∷ parts) (split-form_of next fields hs.0 hs.1)

field_in-map :
    (name : Bytes) (fields : List (Bytes × Bytes))
    → All IsField fields
    → field_in name (map pair_of fields) ≡ value_of name fields
unfolding field_in
field_in-map name [] hs = refl
field_in-map name ((key, value) ∷ fields) hs =
    field_in-pair_of name (key, value) (map pair_of fields) (value_of name fields) hs.0
      (field_in-map name fields hs.1)

-- From a form of one or more pairs of bytes, each key and value encoded, form_field reads the value
-- of the first pair whose encoded key is the name asked for, and nothing if there is none.
pub form_field-form_of :
    (name : Bytes) (first : Bytes × Bytes) (fields : List (Bytes × Bytes))
    → IsField first
    → All IsField fields
    → form_field (form_of first fields) name ≡ value_of name (first ∷ fields)
unfolding form_field
form_field-form_of name first fields h hs =
    ap (field_in name) (split-form_of first fields h hs)
    ∙ field_in-map name (first ∷ fields) (h, hs)

-- The markup that a text could bring along.
abbrev pub IsMarkup : ℕ → Type 0
IsMarkup c = (c ≡ b'<') ⊎ (c ≡ b'>') ⊎ (c ≡ b'"') ⊎ (c ≡ b'\'')

html_char-IsMarkup : (c : ℕ) → All (λ d. IsMarkup d → ⊥) (html_char c)
unfolding html_char
html_char-IsMarkup c = ground arith

-- A text escaped for HTML brings no markup along: none of the characters `<`, `>`, `"` and `'`.
pub html_escape-IsMarkup : (s : Bytes) → All (λ c. IsMarkup c → ⊥) (html_escape s)
unfolding html_escape
html_escape-IsMarkup [] = tt
html_escape-IsMarkup (c ∷ s) =
    All-append (λ d. IsMarkup d → ⊥) (html_char c) (html_escape s) (html_char-IsMarkup c)
      (html_escape-IsMarkup s)
