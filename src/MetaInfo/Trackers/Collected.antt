-- ===== src/MetaInfo/Trackers/Collected.antt =====
-- source/bt/metainfo.cpp: which trackers are collected.
use Prim.Native.Nat.{Ordering}
use torfoil.Prelude.{
  Bool, true, false, List, [], ◌∷◌, ◌++◌, Bytes, codes, if◌then◌else◌, Option, none, some, ◌≡◌, ◌≢◌,
  ◌⊎◌, ◌↔◌, inl, inr, refl, sym, Bool-cases, subst, Among,
}
use torfoil.Bencode.{Value, Items, Span, compare_keys}
use torfoil.Bencode.Order.{compare_keys_eq, compare_keys_self}
use torfoil.Bencode.Lookup.{find_str, find_list}
use torfoil.MetaInfo.Trackers.Adds.{IsDistinct, Adds, Adds-none, Adds-trans, Adds-map, Adds-append}
use torfoil.MetaInfo.Trackers.{
  same_url, is_known, add_url, add_tier, add_tiers, add_announce, collect_trackers,
}

-- A text among the entries of a tier, and among those of the tiers.
abbrev pub UrlIn : Bytes → Items → Type 0
UrlIn url Items.no_items = ⊥
UrlIn url (Items.item v rest) = ((s : Span) × (v ≡ Value.str url s)) ⊎ UrlIn url rest

abbrev pub TierIn : Bytes → Items → Type 0
TierIn url Items.no_items = ⊥
TierIn url (Items.item v rest) =
    ((tier : Items) × (s : Span) × (v ≡ Value.list tier s) × UrlIn url tier) ⊎ TierIn url rest

-- What a torrent announces: the text of `announce`, and those of the tiers of `announce-list`.
abbrev pub Announces : Value → Bytes → Type 0
Announces root url =
    (find_str (codes "announce") root ≡ some url)
    ⊎ ((tiers : Items) × (find_list (codes "announce-list") root ≡ some tiers) × TierIn url tiers)

pub same_url-true : (a b : Bytes) → same_url a b ≡ true → a ≡ b
same_url-true a b h = by_order (compare_keys a b) refl h
  where
    by_order :
        (o : Ordering)
        → compare_keys a b ≡ o
        → elim o as (λ _. Bool) [ Ordering.eq ↦ true | _ ↦ false ] ≡ true
        → a ≡ b
    by_order Ordering.lt e h = absurd (cc)
    by_order Ordering.eq e h = compare_keys_eq a b e
    by_order Ordering.gt e h = absurd (cc)

same_url-same : (a : Bytes) → same_url a a ≡ true
same_url-same a = rw (same_url, compare_keys_self a) refl

is_known-true : (url : Bytes) (known : List Bytes) → is_known url known ≡ true → Among url known
unfolding is_known
is_known-true url [] h = cc
is_known-true url (k ∷ known) h = elim (Bool-cases (same_url k url)) [
  | inl same ↦ inl (sym (same_url-true k url same))
  | inr other ↦ inr (is_known-true url known (rw other at h))
]

is_known-Among : (url : Bytes) (known : List Bytes) → Among url known → is_known url known ≡ true
unfolding is_known
is_known-Among url [] h = absurd h
is_known-Among url (k ∷ known) (inl e) =
    let same : same_url k url ≡ true = subst (λ u. same_url k u ≡ true) (sym e) (same_url-same k) in
    rw same refl
is_known-Among url (k ∷ known) (inr h) = elim (Bool-cases (same_url k url)) [
  | inl same ↦ rw same refl
  | inr other ↦ rw other (is_known-Among url known h)
]

abbrev IsText : Value → Bytes → Type 0
IsText v url = (s : Span) × (v ≡ Value.str url s)

add_url_lem : (known : List Bytes) (v : Value) → Adds known (add_url known v) (IsText v)
unfolding add_url
add_url_lem known (Value.str [] s) =
    Adds-none known (λ url ne (s', e). let is_empty : url ≡ [] = cc in ne is_empty)
add_url_lem known (Value.str (c ∷ url) s) = by_test (is_known (c ∷ url) known) refl
  where
    by_test :
        (test : Bool)
        → is_known (c ∷ url) known ≡ test
        → Adds known
            (if test then known else known ++ (c ∷ url) ∷ [])
            (IsText (Value.str (c ∷ url) s))
    by_test true e = record {
      distinct = λ h. h;
      tells = λ other h. inl h;
      old = λ other h. h;
      new = λ other ne (s', same).
          let is_url : c ∷ url ≡ other = cc in
          subst (λ u. Among u known) is_url (is_known-true (c ∷ url) known e);
    }
    by_test false e =
        Adds-append known (c ∷ url) (λ e'. cc)
          (λ h. let is_in = is_known-Among (c ∷ url) known h in cc) (s, refl)
          (λ other (s', same). cc)
add_url_lem known (Value.int n s) = Adds-none known (λ url ne (s', e). cc)
add_url_lem known (Value.list vs s) = Adds-none known (λ url ne (s', e). cc)
add_url_lem known (Value.dict d s) = Adds-none known (λ url ne (s', e). cc)

add_tier_lem :
    (known : List Bytes) (tier : Items) → Adds known (add_tier known tier) (λ url. UrlIn url tier)
unfolding add_tier
add_tier_lem known Items.no_items = Adds-none known (λ url ne h. h)
add_tier_lem known (Items.item v rest) =
    Adds-trans (add_url_lem known v) (add_tier_lem (add_url known v) rest)

-- The URLs of one element of `announce-list`.
abbrev IsTierOf : Value → Bytes → Type 0
IsTierOf v url = (tier : Items) × (s : Span) × (v ≡ Value.list tier s) × UrlIn url tier

Adds-tier :
    (known : List Bytes) (tier : Items) (s : Span)
    → Adds known (add_tier known tier) (IsTierOf (Value.list tier s))
Adds-tier known tier s =
    Adds-map (add_tier_lem known tier) (λ url p. (tier, s, refl, p))
      (λ url (tier', s', e, p). let same : tier' ≡ tier = cc in subst (UrlIn url) same p)

add_tiers_lem :
    (known : List Bytes) (tiers : Items)
    → Adds known (add_tiers known tiers) (λ url. TierIn url tiers)
unfolding add_tiers
add_tiers_lem known Items.no_items = Adds-none known (λ url ne h. h)
add_tiers_lem known (Items.item (Value.list tier s) rest) =
    Adds-trans (Adds-tier known tier s) (add_tiers_lem (add_tier known tier) rest)
add_tiers_lem known (Items.item (Value.int n s) rest) =
    Adds-trans (Adds-none known (λ url ne (t, s', e, p). cc)) (add_tiers_lem known rest)
add_tiers_lem known (Items.item (Value.str b s) rest) =
    Adds-trans (Adds-none known (λ url ne (t, s', e, p). cc)) (add_tiers_lem known rest)
add_tiers_lem known (Items.item (Value.dict d s) rest) =
    Adds-trans (Adds-none known (λ url ne (t, s', e, p). cc)) (add_tiers_lem known rest)

add_announce_lem :
    (root : Value)
    → Adds [] (add_announce [] root) (λ url. find_str (codes "announce") root ≡ some url)
unfolding add_announce
add_announce_lem root = by_found (find_str (codes "announce") root)
  where
    by_found :
        (found : Option Bytes)
        → Adds []
            (elim found [ none ↦ [] | some [] ↦ [] | some (c ∷ url) ↦ (c ∷ url) ∷ [] ])
            (λ url. found ≡ some url)
    by_found none = Adds-none [] (λ url ne e. cc)
    by_found (some []) = Adds-none [] (λ url ne e. let is_empty : url ≡ [] = cc in ne is_empty)
    by_found (some (c ∷ url)) = Adds-append [] (c ∷ url) (λ e. cc) (λ h. h) refl (λ other e. cc)

collect_trackers_lem : (root : Value) → Adds [] (collect_trackers root []) (Announces root)
unfolding collect_trackers
collect_trackers_lem root = by_found (find_list (codes "announce-list") root)
  where
    by_found :
        (found : Option Items)
        → Adds []
            (elim found [
              | none ↦ add_announce [] root
              | some tiers ↦ add_tiers (add_announce [] root) tiers
            ])
            (λ url.
              (find_str (codes "announce") root ≡ some url)
              ⊎ ((tiers : Items) × (found ≡ some tiers) × TierIn url tiers))
    by_found none =
        Adds-trans (add_announce_lem root)
          (Adds-none (add_announce [] root) (λ url ne (tiers, e, p). cc))
    by_found (some tiers) = Adds-trans (add_announce_lem root) (
        Adds-map (add_tiers_lem (add_announce [] root) tiers) (λ url p. (tiers, refl, p))
          (λ url (tiers', e, p). let same : tiers' ≡ tiers = cc in subst (TierIn url) same p))

-- The trackers collected for a new torrent are all different, and they are exactly the texts that are
-- not empty among `announce` and the entries of the tiers of `announce-list`.
pub collect_trackers-IsDistinct :
    (root : Value)
    → IsDistinct (collect_trackers root [])
      × ((url : Bytes) → Among url (collect_trackers root []) ↔ ((url ≢ []) × Announces root url))
collect_trackers-IsDistinct root =
    let all = collect_trackers_lem root in
    (
      all.distinct tt,
      λ url. (
        λ h. elim (all.tells url h) [ inl none_yet ↦ absurd none_yet | inr told ↦ told ],
        λ (ne, p). all.new url ne p,
      ),
    )
