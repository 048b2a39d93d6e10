-- ===== src/Bencode/Order.antt =====
-- The order of the keys of a decoded dictionary, and what a lookup in it finds.
use Prim.Native.Nat.{Ordering}
use torfoil.Prelude.{[], ◌∷◌, ◌≡◌, refl, Bytes, arith}
use torfoil.Bencode.{Value, Fields, compare_keys, emplace}

abbrev pub reverse_order : Ordering → Ordering
reverse_order Ordering.lt = Ordering.gt
reverse_order Ordering.eq = Ordering.eq
reverse_order Ordering.gt = Ordering.lt

pub compare_keys_reverse : (a b : Bytes) → compare_keys b a ≡ reverse_order (compare_keys a b)
unfolding compare_keys
compare_keys_reverse [] [] = refl
compare_keys_reverse [] (d ∷ b) = refl
compare_keys_reverse (c ∷ a) [] = refl
compare_keys_reverse (c ∷ a) (d ∷ b) = ground (arith, compare_keys_reverse a b)

pub compare_keys_eq : (a b : Bytes) → compare_keys a b ≡ Ordering.eq → a ≡ b
unfolding compare_keys
compare_keys_eq [] [] h = refl
compare_keys_eq [] (d ∷ b) h = cc
compare_keys_eq (c ∷ a) [] h = cc
compare_keys_eq (c ∷ a) (d ∷ b) h = ground (arith, compare_keys_eq a b)

pub compare_keys_self : (a : Bytes) → compare_keys a a ≡ Ordering.eq
unfolding compare_keys
compare_keys_self [] = refl
compare_keys_self (c ∷ a) = ground (arith, compare_keys_self a)

pub compare_keys_trans :
    (a b c : Bytes)
    → compare_keys a b ≡ Ordering.lt
    → compare_keys b c ≡ Ordering.lt
    → compare_keys a c ≡ Ordering.lt
unfolding compare_keys
compare_keys_trans [] [] c h h' = cc
compare_keys_trans (x ∷ a) [] c h h' = cc
compare_keys_trans [] (y ∷ b) [] h h' = cc
compare_keys_trans [] (y ∷ b) (z ∷ c) h h' = refl
compare_keys_trans (x ∷ a) (y ∷ b) [] h h' = cc
compare_keys_trans (x ∷ a) (y ∷ b) (z ∷ c) h h' = ground (arith, compare_keys_trans a b c)

-- A key before the first of a dictionary.
abbrev pub Before : Bytes → Fields → Type 0
Before key Fields.no_fields = Unit
Before key (Fields.field k v d) = compare_keys key k ≡ Ordering.lt

-- The keys rise strictly.
abbrev pub IsOrdered : Fields → Type 0
IsOrdered Fields.no_fields = Unit
IsOrdered (Fields.field k v d) = Before k d × IsOrdered d

Before-emplace :
    (low key : Bytes) (v : Value) (d : Fields)
    → compare_keys low key ≡ Ordering.lt
    → Before low d
    → Before low (emplace key v d)
unfolding emplace
Before-emplace low key v Fields.no_fields h h' = h
Before-emplace low key v (Fields.field k w d) h h' =
    elim (compare_keys key k)
      as (λ order. Before low (elim order [
        | Ordering.lt ↦ Fields.field key v (Fields.field k w d)
        | Ordering.eq ↦ Fields.field k w d
        | Ordering.gt ↦ Fields.field k w (emplace key v d)
      ])) [ Ordering.lt ↦ h | Ordering.eq ↦ h' | Ordering.gt ↦ h' ]

pub emplace-IsOrdered :
    (key : Bytes) (v : Value) (d : Fields) → IsOrdered d → IsOrdered (emplace key v d)
unfolding emplace
emplace-IsOrdered key v Fields.no_fields h = (tt, tt)
emplace-IsOrdered key v (Fields.field k w d) h =
    placed (compare_keys key k) refl (emplace-IsOrdered key v d h.1)
  where
    placed :
        (order : Ordering)
        → compare_keys key k ≡ order
        → IsOrdered (emplace key v d)
        → IsOrdered (elim order [
          | Ordering.lt ↦ Fields.field key v (Fields.field k w d)
          | Ordering.eq ↦ Fields.field k w d
          | Ordering.gt ↦ Fields.field k w (emplace key v d)
        ])
    placed Ordering.lt e rest = (e, h)
    placed Ordering.eq e rest = h
    placed Ordering.gt e rest =
        (Before-emplace k key v d (simp (compare_keys_reverse key k, e)) h.0, rest)
