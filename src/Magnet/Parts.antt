-- ===== src/Magnet/Parts.antt =====
-- source/bt/magnet.cpp: what the parts of a link are, and how a parameter is taken apart.
use torfoil.Prelude.{
  ℕ, Bool, true, false, ◌||◌, Option, none, some, List, [], ◌∷◌, ◌++◌, ◌==◌, ==_iff, if◌then◌else◌,
  length, ◌≢◌, ◌⊎◌, inl, inr, Bytes, codes, ◌≡◌, refl, subst, arith, All, IsByte, Bool-cases,
}
use torfoil.Prelude.Fail.{Try, Gives, Gives-done, Gives-fail}
use torfoil.Bytes.Hex.{from_hex, from_hex_sound, url_decode, to_hex, lower_all}
use torfoil.Bytes.Base32.{from_base32}
use torfoil.Bytes.Base32.Value.{Reads, number, from_base32_value}
use torfoil.Bytes.Text.{starts_with}
use torfoil.Bytes.Text.Laws.{starts_with_iff, Lacks}
use torfoil.MetaInfo.Read.{same_text}
use torfoil.MetaInfo.Trackers.Collected.{same_url-true}
use torfoil.Magnet.{MagnetError, cut_at, or_error, read_id}

-- The hash of 20 bytes that an identifier stands for: 40 hexadecimal digits, which are its print, or 32
-- digits of base 32, which stand for the same number.
abbrev pub IsIdOf : Bytes → Bytes → Type 0
IsIdOf id hash =
    ((length id ≡ 40) × (length hash ≡ 20) × All IsByte hash × (to_hex hash ≡ lower_all id))
    ⊎ ((length id ≡ 32)
        × (length hash ≡ 20)
        × All IsByte hash
        × ((digits : List ℕ) × Reads id digits × (number 256 0 hash ≡ number 32 0 digits)))

abbrev pub IsTopic : Bytes → Type 0
IsTopic key = (key ≡ codes "xt") ⊎ ((more : Bytes) × (key ≡ codes "xt." ++ more))

abbrev pub IsUrn : Bytes → Bytes → Type 0
IsUrn value hash = (id : Bytes) × (value ≡ codes "urn:btih:" ++ id) × IsIdOf id hash

-- A parameter that gives the hash: a key of topics, an equals sign, and the encoded name of the hash.
abbrev pub GivesHash : Bytes → Bytes → Type 0
GivesHash param hash =
    (key encoded : Bytes) × (param ≡ key ++ b'=' ∷ encoded)
    × Lacks b'=' key
    × IsTopic key
    × IsUrn (url_decode encoded) hash

pub Gives-if :
    {A : Type 0} {P : A → Type 0} (test : Bool) {x y : Try MagnetError A}
    → (test ≡ true → Gives P x)
    → (test ≡ false → Gives P y)
    → Gives P (if test then x else y)
Gives-if true hx hy = hx refl
Gives-if false hx hy = hy refl

-- A parameter cut at its first separator.
abbrev pub IsCut : ℕ → Bytes → Bytes → Bytes → Type 0
IsCut sep s key value = (s ≡ key ++ sep ∷ value) × Lacks sep key

pub cut_at_lem :
    (sep : ℕ) (s key value : Bytes) → cut_at sep s ≡ some (key, value) → IsCut sep s key value
unfolding cut_at
cut_at_lem sep [] key value e = cc
cut_at_lem sep (c ∷ s) key value e = elim (Bool-cases (c == sep)) [
  | inl same ↦ at_sep ((==_iff c sep).0 same) (rw same at e)
  | inr other ↦
      at_rest (cut_at sep s) (λ k v. cut_at_lem sep s k v) (λ h. ground arith) (rw other at e)
]
  where
    at_sep :
        c ≡ sep
        → ◌≡◌ {A = Option (Bytes × Bytes)} (some ([], s)) (some (key, value))
        → IsCut sep (c ∷ s) key value
    at_sep is_sep found =
        let no_key : [] ≡ key = cc in
        let rest : s ≡ value = cc in
        let whole : c ∷ s ≡ key ++ sep ∷ value = cc in (whole, subst (Lacks sep) no_key tt)

    at_rest :
        (rest : Option (Bytes × Bytes))
        → ((k v : Bytes) → rest ≡ some (k, v) → IsCut sep s k v)
        → c ≢ sep
        → elim rest as (λ _. Option (Bytes × Bytes)) [ none ↦ none | some (k, v) ↦ some (c ∷ k, v) ]
          ≡ some (key, value)
        → IsCut sep (c ∷ s) key value
    at_rest none cut other e = absurd (cc)
    at_rest (some (k, v)) cut other e =
        let (whole, lacks) = cut k v refl in
        let longer : c ∷ k ≡ key = cc in
        let same : v ≡ value = cc in
        let whole' : c ∷ s ≡ key ++ sep ∷ value = cc in
        (whole', subst (Lacks sep) longer (other, lacks))

or_error-some :
    {P : Bytes → Type 0} (o : Option Bytes) (e : MagnetError)
    → ((hash : Bytes) → o ≡ some hash → P hash)
    → Gives P (or_error o e)
or_error-some none e h = Gives-fail
or_error-some (some hash) e h = Gives-done (h hash refl)

pub read_id-IsIdOf : (id : Bytes) → Gives (IsIdOf id) (read_id id)
unfolding read_id
read_id-IsIdOf id =
    Gives-if (length id == 40)
      (λ forty. or_error-some (from_hex id 20) MagnetError.bad_hex (λ hash e.
        let (n, _, bytes, printed) = from_hex_sound id 20 hash e in
        inl ((==_iff (length id) 40).0 forty, n, bytes, printed)))
      (λ _.
        Gives-if (length id == 32)
          (λ two. or_error-some (from_base32 id 20) MagnetError.bad_base32 (λ hash e.
            let l = (==_iff (length id) 32).0 two in
            let (n, bytes, same) = from_base32_value id hash l e in inr (l, n, bytes, same)))
          (λ _. Gives-fail))

pub key_xt :
    (key : Bytes)
    → (same_text key (codes "xt") || starts_with key (codes "xt.")) ≡ true
    → IsTopic key
key_xt key h = elim (Bool-cases (same_text key (codes "xt"))) [
  | inl same ↦ inl (same_url-true key (codes "xt") same)
  | inr other ↦ inr ((starts_with_iff key (codes "xt.")).0 (rw other at h))
]
