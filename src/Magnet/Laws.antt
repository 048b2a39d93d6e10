-- ===== src/Magnet/Laws.antt =====
-- source/bt/magnet.cpp: where the hash of an accepted link comes from.
use torfoil.Prelude.{
  Bool, true, false, ◌||◌, Option, none, some, List, [], ◌∷◌, ◌++◌, if◌then◌else◌, drop, inl, inr,
  Bytes, codes, ltb, ◌≡◌, refl, subst, ap, Among,
}
use torfoil.Prelude.Fail.{fail, done, Gives, Gives-bind, Gives-done, Gives-fail}
use torfoil.Bytes.Hex.{url_decode}
use torfoil.Bytes.Text.{trim, split, starts_with}
use torfoil.Bytes.Text.Laws.{starts_with_iff}
use torfoil.MetaInfo.Read.{same_text}
use torfoil.Magnet.{
  MagnetLink, MagnetError, Reading, cut_at, positive_value, read_topic, read_param, read_raw,
  read_params, parse_magnet,
}
use torfoil.Magnet.Parts.{
  IsTopic, IsUrn, IsIdOf, GivesHash, Gives-if, cut_at_lem, read_id-IsIdOf, key_xt,
}

-- As soon as a hash is there, it is one that satisfies P.
module _ (P : Bytes → Type 0) where
  abbrev HasHash : Reading → Type 0
  HasHash (out, has_hash) = has_hash ≡ true → P out.info_hash

  read_topic-HasHash :
      (value : Bytes) (r : Reading)
      → ((hash : Bytes) → IsUrn value hash → P hash)
      → HasHash r
      → Gives HasHash (read_topic value r)
  unfolding read_topic
  read_topic-HasHash value (out, has_hash) told h =
      Gives-if (starts_with value (codes "urn:btih:"))
        (λ starts.
          let (id, whole) = (starts_with_iff value (codes "urn:btih:")).0 starts in
          let rest : drop 9 value ≡ id = ap (drop 9) whole in
          Gives-bind (read_id-IsIdOf (drop 9 value)) (λ hash is.
            Gives-done (λ _. told hash (id, whole, subst (λ i. IsIdOf i hash) rest is))))
        (λ _.
          Gives-if (starts_with value (codes "urn:btmh:")) (λ _. Gives-fail) (λ _. Gives-done h))

  read_param-HasHash :
      (key value : Bytes) (r : Reading)
      → (IsTopic key → (hash : Bytes) → IsUrn value hash → P hash)
      → HasHash r
      → Gives HasHash (read_param key value r)
  unfolding read_param
  read_param-HasHash key value (out, has_hash) told h =
      Gives-if (same_text key (codes "xt") || starts_with key (codes "xt."))
        (λ topic. read_topic-HasHash value (out, has_hash) (told (key_xt key topic)) h)
        (λ _.
          Gives-if (same_text key (codes "dn")) (λ _. Gives-done h)
            (λ _.
              Gives-if (same_text key (codes "tr")) (λ _. Gives-done h)
                (λ _.
                  Gives-if (same_text key (codes "ws")) (λ _. Gives-done h)
                    (λ _.
                      Gives-if (same_text key (codes "xl"))
                        (λ _.
                          Gives-if (ltb 0 (positive_value value)) (λ _. Gives-done h)
                            (λ _. Gives-done h))
                        (λ _. Gives-done h)))))

  read_raw-HasHash :
      (param : Bytes) (r : Reading)
      → ((hash : Bytes) → GivesHash param hash → P hash)
      → HasHash r
      → Gives HasHash (read_raw param r)
  unfolding read_raw
  read_raw-HasHash param r told h = at_cut (cut_at b'=' param) refl
    where
      at_value :
          (key decoded : Bytes)
          → (IsTopic key → (hash : Bytes) → IsUrn decoded hash → P hash)
          → Gives HasHash (elim decoded [ [] ↦ done r | c ∷ value ↦ read_param key (c ∷ value) r ])
      at_value key [] told' = Gives-done h
      at_value key (c ∷ value) told' = read_param-HasHash key (c ∷ value) r told' h

      at_cut :
          (parts : Option (Bytes × Bytes))
          → cut_at b'=' param ≡ parts
          → Gives HasHash (elim parts [
            | none ↦ done r
            | some (key, raw) ↦ elim (url_decode raw) [
              | [] ↦ done r
              | c ∷ value ↦ read_param key (c ∷ value) r
            ]
          ])
      at_cut none e = Gives-done h
      at_cut (some (key, raw)) e =
          let (whole, lacks) = cut_at_lem b'=' param key raw e in
          at_value key (url_decode raw)
            (λ topic hash urn. told hash (key, raw, whole, lacks, topic, urn))

  read_params-HasHash :
      (params : List Bytes) (r : Reading)
      → ((param hash : Bytes) → Among param params → GivesHash param hash → P hash)
      → HasHash r
      → Gives HasHash (read_params params r)
  unfolding read_params
  read_params-HasHash [] r told h = Gives-done h
  read_params-HasHash (raw ∷ rest) r told h =
      Gives-bind (read_raw-HasHash raw r (λ hash. told raw hash (inl refl)) h)
        (λ r' h'. read_params-HasHash rest r' (λ p hash is. told p hash (inr is)) h')

-- The parameters of a link.
abbrev pub HashFrom : Bytes → Bytes → Type 0
HashFrom uri hash =
    (query : Bytes) × (trim uri ≡ codes "magnet:?" ++ query)
    × ((param : Bytes) × Among param (split query b'&') × GivesHash param hash)

parse_magnet-Gives :
    (uri : Bytes) (out : MagnetLink) → Gives (λ m. HashFrom uri m.info_hash) (parse_magnet uri out)
unfolding parse_magnet
parse_magnet-Gives uri out =
    Gives-if (starts_with (trim uri) (codes "magnet:?"))
      (λ starts.
        let (query, whole) = (starts_with_iff (trim uri) (codes "magnet:?")).0 starts in
        let rest : drop 8 (trim uri) ≡ query = ap (drop 8) whole in
        Gives-bind
          (read_params-HasHash (HashFrom uri) (split (drop 8 (trim uri)) b'&') (out, false)
            (λ p hash is gives.
              (query, whole, (p, subst (λ q. Among p (split q b'&')) rest is, gives)))
            (λ e. cc))
          (λ (link, has_hash) h. at_hash link has_hash h))
      (λ _. Gives-fail)
  where
    at_hash :
        (link : MagnetLink) (has_hash : Bool)
        → (has_hash ≡ true → HashFrom uri link.info_hash)
        → Gives
            (λ m. HashFrom uri m.info_hash)
            (if has_hash then done link else fail MagnetError.hash_missing)
    at_hash link true h = Gives-done (h refl)
    at_hash link false h = Gives-fail

-- An accepted link begins, without the blanks at its ends, with `magnet:?`, and its hash comes from one
-- of the parameters behind that, which `&` parts: the key in front of its first `=` is `xt` or begins with
-- `xt.`, and its decoded value is `urn:btih:` with an identifier of the hash. That is 40 hexadecimal
-- digits, which in lower case are the print of the 20 bytes, or 32 digits of base 32, which stand for the
-- same number as the 20 bytes do.
pub parse_magnet-HashFrom :
    (uri : Bytes) (out m : MagnetLink) → parse_magnet uri out ≡ done m → HashFrom uri m.info_hash
parse_magnet-HashFrom uri out m e = (subst (Gives _) e (parse_magnet-Gives uri out)).outcome
