-- ===== src/Bencode/Lookup.antt =====
-- source/bt/bencode.cpp: the lookups in a dictionary, and what they find in a decoded one.
use Prim.Native.Nat.{Ordering}
use torfoil.Prelude.{Option, none, some, ◌≡◌, refl, Bytes}
use torfoil.Bencode.{Integer, Value, Items, Fields, compare_keys, emplace}
use torfoil.Bencode.Order.{IsOrdered, Before, compare_keys_self, compare_keys_trans}

-- `d.find`: an entry is found where its key is the one looked for.
unfoldable pub lookup : Bytes → Fields → Option Value
lookup key Fields.no_fields = none
lookup key (Fields.field k v d) = elim (compare_keys key k) [
  | Ordering.eq ↦ some v
  | _ ↦ lookup key d
]

unfoldable pub find : Bytes → Value → Option Value
unfolding lookup
find key (Value.dict d s) = lookup key d
find key (Value.int n s) = none
find key (Value.str b s) = none
find key (Value.list vs s) = none

unfoldable pub find_int : Bytes → Value → Option Integer
unfolding find
find_int key v = elim (find key v) [ some (Value.int n s) ↦ some n | _ ↦ none ]

unfoldable pub find_str : Bytes → Value → Option Bytes
unfolding find
find_str key v = elim (find key v) [ some (Value.str b s) ↦ some b | _ ↦ none ]

unfoldable pub find_list : Bytes → Value → Option Items
unfolding find
find_list key v = elim (find key v) [ some (Value.list vs s) ↦ some vs | _ ↦ none ]

-- The dictionary as a value, whose span the caller needs.
unfoldable pub find_dict : Bytes → Value → Option Value
unfolding find
find_dict key v = elim (find key v) [ some (Value.dict d s) ↦ some (Value.dict d s) | _ ↦ none ]

abbrev pub or_else {ℓ} : {A : Type ℓ} → Option A → A → A
or_else none fallback = fallback
or_else (some a) fallback = a

unfoldable pub int_or : Bytes → Integer → Value → Integer
unfolding find_int
int_or key fallback v = or_else (find_int key v) fallback

unfoldable pub str_or : Bytes → Bytes → Value → Bytes
unfolding find_str
str_or key fallback v = or_else (find_str key v) fallback

Before-trans :
    (key k : Bytes) (d : Fields) → compare_keys key k ≡ Ordering.lt → Before k d → Before key d
Before-trans key k Fields.no_fields e h = tt
Before-trans key k (Fields.field j w d) e h = compare_keys_trans key k j e h

-- A key before the first is not found.
lookup-Before : (key : Bytes) (d : Fields) → IsOrdered d → Before key d → lookup key d ≡ none
unfolding lookup
lookup-Before key Fields.no_fields h before = refl
lookup-Before key (Fields.field k v d) h before =
    simp (lookup, before, lookup-Before key d h.1 (Before-trans key k d before h.0))

-- After a pair is stored in a dictionary whose keys rise, its key is found: with the value that it had
-- before, where the key was there already, else with the new one.
pub lookup-emplace :
    (key : Bytes) (v : Value) (d : Fields)
    → IsOrdered d
    → lookup key (emplace key v d) ≡ some (or_else (lookup key d) v)
unfolding lookup emplace
lookup-emplace key v Fields.no_fields ordered = rw (lookup, compare_keys_self key) refl
lookup-emplace key v (Fields.field k w d) ordered =
    cases (compare_keys key k) refl (lookup-emplace key v d ordered.1)
  where
    cases :
        (order : Ordering)
        → compare_keys key k ≡ order
        → lookup key (emplace key v d) ≡ some (or_else (lookup key d) v)
        → lookup key (emplace key v (Fields.field k w d))
          ≡ some (or_else (lookup key (Fields.field k w d)) v)
    cases Ordering.lt e rest = simp (
      lookup,
      emplace,
      e,
      compare_keys_self key,
      lookup-Before key d ordered.1 (Before-trans key k d e ordered.0),
    )
    cases Ordering.eq e rest = simp (lookup, emplace, e)
    cases Ordering.gt e rest = simp (lookup, emplace, e, rest)
