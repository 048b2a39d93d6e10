-- ===== src/MetaInfo/Trackers.antt =====
-- source/bt/metainfo.cpp: the list of trackers of a torrent.
pub mod Adds
pub mod Collected
use Prim.Native.Nat.{Ordering}
use torfoil.Prelude.{
  Bool, true, false, ◌||◌, List, [], ◌∷◌, ◌++◌, Bytes, codes, if◌then◌else◌, Option, none, some,
  ◌≡◌, refl, ◌∙◌, arith,
}
use torfoil.Bencode.{Value, Items, compare_keys}
use torfoil.Bencode.Order.{compare_keys_reverse, reverse_order}
use torfoil.Bencode.Lookup.{find_str, find_list}

abbrev pub same_url : Bytes → Bytes → Bool
same_url a b = elim (compare_keys a b) [ Ordering.eq ↦ true | _ ↦ false ]

unfoldable pub is_known : Bytes → List Bytes → Bool
is_known url [] = false
is_known url (known ∷ rest) = same_url known url || is_known url rest

-- The URL of one entry of a tier, if it is new.
unfoldable pub add_url : List Bytes → Value → List Bytes
unfolding is_known
add_url trackers (Value.str [] s) = trackers
add_url trackers (Value.str (c ∷ url) s) =
    if is_known (c ∷ url) trackers then trackers else trackers ++ (c ∷ url) ∷ []
add_url trackers (Value.int n s) = trackers
add_url trackers (Value.list vs s) = trackers
add_url trackers (Value.dict d s) = trackers

unfoldable pub add_tier : List Bytes → Items → List Bytes
unfolding add_url
add_tier trackers Items.no_items = trackers
add_tier trackers (Items.item url rest) = add_tier (add_url trackers url) rest

unfoldable pub add_tiers : List Bytes → Items → List Bytes
unfolding add_tier
add_tiers trackers Items.no_items = trackers
add_tiers trackers (Items.item (Value.list tier s) rest) = add_tiers (add_tier trackers tier) rest
add_tiers trackers (Items.item (Value.int n s) rest) = add_tiers trackers rest
add_tiers trackers (Items.item (Value.str b s) rest) = add_tiers trackers rest
add_tiers trackers (Items.item (Value.dict d s) rest) = add_tiers trackers rest

-- `announce`, which is added unseen.
unfoldable pub add_announce : List Bytes → Value → List Bytes
add_announce trackers root = elim (find_str (codes "announce") root) [
  | none ↦ trackers
  | some [] ↦ trackers
  | some (c ∷ url) ↦ trackers ++ (c ∷ url) ∷ []
]

unfoldable pub collect_trackers : Value → List Bytes → List Bytes
unfolding add_announce add_tiers
collect_trackers root trackers = elim (find_list (codes "announce-list") root) [
  | none ↦ add_announce trackers root
  | some tiers ↦ add_tiers (add_announce trackers root) tiers
]
