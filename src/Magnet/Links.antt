-- ===== src/Magnet/Links.antt =====
-- source/bt/magnet.cpp: the plainest link is accepted.
use torfoil.Prelude.{
  ℕ, ◌/◌, ◌%◌, ◌<◌, Bool, true, false, some, List, [], ◌∷◌, ◌++◌, ◌==◌, length, drop, ◌≢◌, Bytes,
  codes, ◌≡◌, refl, subst, ap, ◌∙◌, arith, All, IsByte, All-append, if◌then◌else◌, not, ◌&&◌, not,
  ◌&&◌,
}
use torfoil.Prelude.Fail.{Try, fail, done, ◌>>=◌}
use torfoil.Bytes.Hex.{from_hex, from_hex-to_hex, url_decode, to_hex, hex_digit, length-to_hex}
use torfoil.Bytes.Base32.{from_base32}
use torfoil.Bytes.Sanitize.{drop_back, keep_front}
use torfoil.Bytes.Text.{trim, split, starts_with, is_space, drop_front}
use torfoil.Bytes.Text.Laws.{Lacks, split_whole}
use torfoil.Bencode.{compare_keys}
use torfoil.Magnet.{
  MagnetLink, MagnetError, Reading, or_error, cut_at, read_id, read_topic, read_param, read_raw,
  read_params, parse_magnet,
}

-- Characters that stand for themselves in a parameter.
abbrev IsSolid : ℕ → Type 0
IsSolid c = (is_space c ≡ false) × (c ≢ b'&') × (c ≢ b'%') × (c ≢ b'+')

hex_digit-IsSolid : (v : ℕ) → v < 16 → IsSolid (hex_digit v)
unfolding hex_digit is_space
hex_digit-IsSolid v h = (ground arith, λ e. ground arith, λ e. ground arith, λ e. ground arith)

to_hex-IsSolid : (d : Bytes) → All IsByte d → All IsSolid (to_hex d)
unfolding to_hex
to_hex-IsSolid [] h = tt
to_hex-IsSolid (c ∷ d) h = (
  hex_digit-IsSolid (c / 16) (omega (arith, h.0)),
  (hex_digit-IsSolid (c % 16) (omega arith), to_hex-IsSolid d h.1),
)

keep_front_solid : (c : ℕ) (s : Bytes) → is_space c ≡ false → keep_front is_space c s ≡ c ∷ s
unfolding keep_front
keep_front_solid c [] h = rw h refl
keep_front_solid c (d ∷ s) h = refl

drop_back_solid : (s : Bytes) → All IsSolid s → drop_back is_space s ≡ s
unfolding drop_back
drop_back_solid [] h = refl
drop_back_solid (c ∷ s) (h, rest) = rw (drop_back_solid s rest) (keep_front_solid c s h.0)

drop_front_solid : (c : ℕ) (s : Bytes) → is_space c ≡ false → drop_front (c ∷ s) ≡ c ∷ s
unfolding drop_front
drop_front_solid c s h = rw h refl

trim_solid : (c : ℕ) (s : Bytes) → All IsSolid (c ∷ s) → trim (c ∷ s) ≡ c ∷ s
unfolding trim
trim_solid c s h = ap (drop_back is_space) (drop_front_solid c s h.0.0) ∙ drop_back_solid (c ∷ s) h

url_decode_solid : (s : Bytes) → All IsSolid s → url_decode s ≡ s
unfolding url_decode
url_decode_solid [] h = refl
url_decode_solid (c ∷ []) (h, _) = ground arith
url_decode_solid (c ∷ a ∷ []) (h, (h', _)) = ground arith
url_decode_solid (c ∷ a ∷ b ∷ rest) (h, later) =
    let same : url_decode (a ∷ b ∷ rest) ≡ a ∷ b ∷ rest = url_decode_solid (a ∷ b ∷ rest) later in
    let other : (c == b'%') ≡ false = ground arith in
    let kept : (c == b'+') ≡ false = ground arith in ground (arith, other, kept, same)

is_solid : ℕ → Bool
is_solid c = not (is_space c) && not (c == b'&') && not (c == b'%') && not (c == b'+')

all_solid : Bytes → Bool
all_solid [] = true
all_solid (c ∷ s) = is_solid c && all_solid s

all_solid-IsSolid : (s : Bytes) → all_solid s ≡ true → All IsSolid s
unfolding all_solid is_solid
all_solid-IsSolid [] h = tt
all_solid-IsSolid (c ∷ s) h = (
  (ground arith, λ e. ground arith, λ e. ground arith, λ e. ground arith),
  all_solid-IsSolid s (ground arith),
)

abbrev front : Bytes
front = codes "magnet:?xt=urn:btih:"

front-IsSolid : All IsSolid front
front-IsSolid = all_solid-IsSolid front (unfold all_solid is_solid is_space in refl)

abbrev query_front : Bytes
query_front = codes "xt=urn:btih:"

query_front-IsSolid : All IsSolid query_front
query_front-IsSolid = all_solid-IsSolid query_front (unfold all_solid is_solid is_space in refl)

abbrev name_front : Bytes
name_front = codes "urn:btih:"

name_front-IsSolid : All IsSolid name_front
name_front-IsSolid = all_solid-IsSolid name_front (unfold all_solid is_solid is_space in refl)

read_id-to_hex :
    (hash : Bytes) → length hash ≡ 20 → All IsByte hash → read_id (to_hex hash) ≡ done hash
unfolding read_id
read_id-to_hex hash l bytes =
    let long : (length (to_hex hash) == 40) ≡ true = ground (arith, length-to_hex hash) in
    let read : from_hex (to_hex hash) 20 ≡ some hash =
      subst (λ n. from_hex (to_hex hash) n ≡ some hash) l (from_hex-to_hex hash bytes) in
    ap
      (λ test.
        if test
        then or_error (from_hex (to_hex hash) 20) MagnetError.bad_hex
        else if length (to_hex hash) == 32
        then or_error (from_base32 (to_hex hash) 20) MagnetError.bad_base32
        else fail MagnetError.bad_length)
      long
    ∙ ap (λ o. or_error o MagnetError.bad_hex) read

abbrev finish_topic : MagnetLink → Try MagnetError Bytes → Try MagnetError Reading
finish_topic out m = do hash ← m; done (record out { info_hash = hash }, true)

abbrev read_value : Bytes → Reading → Bytes → Try MagnetError Reading
read_value key r [] = done r
read_value key r (c ∷ value) = read_param key (c ∷ value) r

abbrev finish : Try MagnetError Reading → Try MagnetError MagnetLink
finish m = do (link, has_hash) ← m; if has_hash then done link else fail MagnetError.hash_missing

abbrev parse_params : List Bytes → MagnetLink → Try MagnetError MagnetLink
parse_params params out = finish (read_params params (out, false))

abbrev parse_trimmed : Bytes → MagnetLink → Try MagnetError MagnetLink
parse_trimmed trimmed out =
    if starts_with trimmed (codes "magnet:?")
    then parse_params (split (drop 8 trimmed) b'&') out
    else fail MagnetError.not_magnet

read_topic-to_hex :
    (hash : Bytes) (out : MagnetLink) (has_hash : Bool)
    → length hash ≡ 20
    → All IsByte hash
    → read_topic (name_front ++ to_hex hash) (out, has_hash)
      ≡ done (record out { info_hash = hash }, true)
unfolding read_topic starts_with
read_topic-to_hex hash out has_hash l bytes = ap (finish_topic out) (read_id-to_hex hash l bytes)

read_raw-to_hex :
    (hash : Bytes) (out : MagnetLink) (has_hash : Bool)
    → length hash ≡ 20
    → All IsByte hash
    → read_raw (codes "xt=urn:btih:" ++ to_hex hash) (out, has_hash)
      ≡ done (record out { info_hash = hash }, true)
unfolding read_raw read_param cut_at starts_with compare_keys
read_raw-to_hex hash out has_hash l bytes =
    let solid : All IsSolid (name_front ++ to_hex hash) =
      All-append IsSolid name_front (to_hex hash) name_front-IsSolid (to_hex-IsSolid hash bytes) in
    ap (read_value (codes "xt") (out, has_hash))
      (url_decode_solid (name_front ++ to_hex hash) solid)
    ∙ read_topic-to_hex hash out has_hash l bytes

IsSolid-Lacks : (s : Bytes) → All IsSolid s → Lacks b'&' s
IsSolid-Lacks [] h = tt
IsSolid-Lacks (c ∷ s) (h, rest) = (h.1, IsSolid-Lacks s rest)

-- The link that names a hash in hexadecimal and nothing else is accepted, and read as that hash.
pub parse_magnet-to_hex :
    (hash : Bytes) (out : MagnetLink)
    → length hash ≡ 20
    → All IsByte hash
    → parse_magnet (codes "magnet:?xt=urn:btih:" ++ to_hex hash) out
      ≡ done (record out { info_hash = hash })
unfolding parse_magnet read_params starts_with
parse_magnet-to_hex hash out l bytes =
    let hex = to_hex-IsSolid hash bytes in
    let solid : All IsSolid (front ++ to_hex hash) =
      All-append IsSolid front (to_hex hash) front-IsSolid hex in
    let solid' : All IsSolid (query_front ++ to_hex hash) =
      All-append IsSolid query_front (to_hex hash) query_front-IsSolid hex in
    let one : split (query_front ++ to_hex hash) b'&' ≡ (query_front ++ to_hex hash) ∷ [] =
      split_whole (query_front ++ to_hex hash) b'&'
        (IsSolid-Lacks (query_front ++ to_hex hash) solid') in
    ap (λ s. parse_trimmed s out) (trim_solid b'm' (drop 1 front ++ to_hex hash) solid)
    ∙ ap (λ params. parse_params params out) one
    ∙ ap (λ m. finish (m >>= λ r. done r)) (read_raw-to_hex hash out false l bytes)
