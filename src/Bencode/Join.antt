-- ===== src/Bencode/Join.antt =====
-- Dictionaries built from their first key to their last.
use Prim.Native.Nat.{Ordering}
use torfoil.Prelude.{◌≡◌, refl, ◌∙◌, Bytes}
use torfoil.Bencode.{Value, Fields, emplace, compare_keys}
use torfoil.Bencode.Order.{Before, compare_keys_reverse, compare_keys_trans}

-- One dictionary before another.
unfoldable pub join : Fields → Fields → Fields
join Fields.no_fields d = d
join (Fields.field k v c) d = Fields.field k v (join c d)

pub join_assoc : (a b c : Fields) → join (join a b) c ≡ join a (join b c)
unfolding join
join_assoc Fields.no_fields b c = refl
join_assoc (Fields.field k v a) b c = rw (join_assoc a b c) refl

pub join_empty : (a : Fields) → join a Fields.no_fields ≡ a
unfolding join
join_empty Fields.no_fields = refl
join_empty (Fields.field k v a) = rw (join_empty a) refl

abbrev pub LastKey : Fields → Bytes → Type 0
LastKey Fields.no_fields key = Unit
LastKey (Fields.field k v d) key = (compare_keys k key ≡ Ordering.lt) × LastKey d key

pub emplace_last :
    (key : Bytes) (v : Value) (d : Fields)
    → LastKey d key
    → emplace key v d ≡ join d (Fields.field key v Fields.no_fields)
unfolding emplace join
emplace_last key v Fields.no_fields h = refl
emplace_last key v (Fields.field k w d) h =
    let after : compare_keys key k ≡ Ordering.gt = compare_keys_reverse k key ∙ rw h.0 refl in
    simp (emplace, after, emplace_last key v d h.1)

LastKey-join :
    (key next : Bytes) (v : Value) (d : Fields)
    → compare_keys key next ≡ Ordering.lt
    → LastKey d key
    → LastKey (join d (Fields.field key v Fields.no_fields)) next
unfolding join
LastKey-join key next v Fields.no_fields lt h = (lt, tt)
LastKey-join key next v (Fields.field k w d) lt h =
    (compare_keys_trans k key next h.0 lt, LastKey-join key next v d lt h.1)

-- All keys of the first dictionary come before those of the second.
abbrev pub Follows : Fields → Fields → Type 0
Follows c Fields.no_fields = Unit
Follows c (Fields.field key v d) = LastKey c key

pub Follows-join :
    (key : Bytes) (v : Value) (c d : Fields)
    → Before key d
    → LastKey c key
    → Follows (join c (Fields.field key v Fields.no_fields)) d
Follows-join key v c Fields.no_fields before h = tt
Follows-join key v c (Fields.field next w d) before h = LastKey-join key next v c before h

pub empty-Follows : (d : Fields) → Follows Fields.no_fields d
empty-Follows Fields.no_fields = tt
empty-Follows (Fields.field key v d) = tt
