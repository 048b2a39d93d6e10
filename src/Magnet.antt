-- ===== src/Magnet.antt =====
-- source/bt/magnet.cpp and include/bt/magnet.hpp: `parse_magnet`. What a refused call leaves in `out` is
-- left out.
pub mod Parts
pub mod Laws
pub mod Links
use torfoil.Prelude.{
  ℕ, zero, suc, ◌+◌, ◌-◌, ◌*◌, ◌^◌, Bool, true, false, ◌&&◌, ◌||◌, Option, none, some, List, [],
  ◌∷◌, ◌++◌, min, ltb, leb, ◌==◌, if◌then◌else◌, length, drop, Bytes, codes,
}
use torfoil.Prelude.Fail.{Try, fail, done, ◌>>=◌, unless}
use torfoil.Bytes.Hex.{from_hex, url_decode}
use torfoil.Bytes.Base32.{from_base32}
use torfoil.Bytes.Text.{trim, split, starts_with, is_space}
use torfoil.Bencode.{compare_keys, is_digit}
use torfoil.MetaInfo.Read.{same_text}

pub record MagnetLink : Type 0 where
  pub info_hash : Bytes
  pub display_name : Bytes
  pub trackers : List Bytes
  pub web_seeds : List Bytes
  pub exact_length : ℕ

pub data MagnetError : Type 0 where
  not_magnet bad_hex bad_base32 bad_length version_two hash_missing : MagnetError

-- A parameter cut at its first `=`.
unfoldable pub cut_at : ℕ → Bytes → Option (Bytes × Bytes)
cut_at sep [] = none
cut_at sep (c ∷ s) =
    let later : Option (Bytes × Bytes) = elim (cut_at sep s) [
      | none ↦ none
      | some (key, value) ↦ some (c ∷ key, value)
    ] in
    if c == sep then some ([], s) else later

-- `strtoll` in base 10, as far as its result is positive: blanks, a sign, digits up to the first other
-- character, at most 2^63 - 1.
unfoldable pub digits_value : ℕ → Bytes → ℕ
digits_value value [] = value
digits_value value (c ∷ s) =
    if is_digit c then digits_value (min (value * 10 + (c - b'0')) (2 ^ 63 - 1)) s else value

unfoldable pub positive_value : Bytes → ℕ
unfolding digits_value is_space
positive_value [] = 0
positive_value (c ∷ s) =
    let later = positive_value s in
    if is_space c
    then later
    else if c == b'+'
    then digits_value 0 s
    else if c == b'-'
    then 0
    else digits_value 0 (c ∷ s)

abbrev pub or_error {ℓ} : {A : Type ℓ} → Option A → MagnetError → Try MagnetError A
or_error none e = fail e
or_error (some a) e = done a

-- The hash behind `urn:btih:`.
unfoldable pub read_id : Bytes → Try MagnetError Bytes
unfolding from_hex from_base32
read_id id =
    if length id == 40
    then or_error (from_hex id 20) MagnetError.bad_hex
    else if length id == 32
    then or_error (from_base32 id 20) MagnetError.bad_base32
    else fail MagnetError.bad_length

-- `has_hash` goes along with the link.
abbrev pub Reading : Type 0
Reading = MagnetLink × Bool

unfoldable pub read_topic : Bytes → Reading → Try MagnetError Reading
unfolding starts_with read_id
read_topic value (out, has_hash) =
    if starts_with value (codes "urn:btih:")
    then (do hash ← read_id (drop 9 value); done (record out { info_hash = hash }, true))
    else if starts_with value (codes "urn:btmh:")
    then fail MagnetError.version_two
    else done (out, has_hash)

unfoldable pub read_param : Bytes → Bytes → Reading → Try MagnetError Reading
unfolding compare_keys starts_with read_topic positive_value
read_param key value (out, has_hash) =
    if same_text key (codes "xt") || starts_with key (codes "xt.")
    then read_topic value (out, has_hash)
    else if same_text key (codes "dn")
    then done (record out { display_name = value }, has_hash)
    else if same_text key (codes "tr")
    then done (record out { trackers = out.trackers ++ value ∷ [] }, has_hash)
    else if same_text key (codes "ws")
    then done (record out { web_seeds = out.web_seeds ++ value ∷ [] }, has_hash)
    else if same_text key (codes "xl")
    then (let len = positive_value value in
        if ltb 0 len
        then done (record out { exact_length = len }, has_hash)
        else done (out, has_hash))
    else done (out, has_hash)

-- A parameter with no `=` or with no value is passed over.
unfoldable pub read_raw : Bytes → Reading → Try MagnetError Reading
unfolding cut_at url_decode read_param
read_raw raw_param r = elim (cut_at b'=' raw_param) [
  | none ↦ done r
  | some (key, raw) ↦ elim (url_decode raw) [
    | [] ↦ done r
    | c ∷ value ↦ read_param key (c ∷ value) r
  ]
]

unfoldable pub read_params : List Bytes → Reading → Try MagnetError Reading
unfolding read_raw
read_params [] r = done r
read_params (raw_param ∷ rest) r = do r' ← read_raw raw_param r; read_params rest r'

unfoldable pub parse_magnet : Bytes → MagnetLink → Try MagnetError MagnetLink
unfolding trim starts_with split read_params
parse_magnet uri out =
    let trimmed = trim uri in
    if starts_with trimmed (codes "magnet:?")
    then (do
      (link, has_hash) ← read_params (split (drop 8 trimmed) b'&') (out, false)
      if has_hash then done link else fail MagnetError.hash_missing)
    else fail MagnetError.not_magnet
