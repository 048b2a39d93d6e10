-- ===== src/Bencode/Spans.antt =====
-- The decoder comes to an end with the fuel it is given, and where it says that the values stand.
use Prim.Native.Nat.{Ordering}
use torfoil.Prelude.{
  ℕ, zero, suc, ◌+◌, ◌-◌, ◌*◌, ◌≤◌, ◌<◌, true, [], ◌∷◌, ◌≡◌, ◌≢◌, refl, length, Bytes, ◌==◌, ap,
  sym, subst, ltb, arith,
}
use torfoil.Bencode.{
  magnitude, Span, Value, Items, Fields, Error, Result, ok, err, Cursor, advance, emplace,
  max_depth, compare_keys, is_digit, span, as_value, parse, parse_list, parse_dict, bdecode,
}
use torfoil.Bencode.Outcome.{Ends, Ends-ok, Ends-err, Ends-if, Ends-bind, Ends-mono}
use torfoil.Bencode.Order.{IsOrdered, emplace-IsOrdered}
use torfoil.Bencode.Progress.{ReadsNumber, ReadsText, Ahead, read_number-Ahead, parse_str-Ahead}

abbrev pub IsWithin : ℕ → ℕ → Span → Type 0
IsWithin low high s = (low ≤ s.raw_begin) × (s.raw_begin < s.raw_end) × (s.raw_end ≤ high)

abbrev pub span_of : Value → Span
span_of (Value.int n s) = s
span_of (Value.str b s) = s
span_of (Value.list vs s) = s
span_of (Value.dict d s) = s

-- What a value holds stands inside it, the items of a list one after the other; the keys of a
-- dictionary rise; numbers and strings are in range.
unfoldable mutual
  pub Inner : Value → Type 0
  Inner (Value.int n s) = magnitude n ≤ 9223372036854775807
  Inner (Value.str b s) = length b ≤ 67108864
  Inner (Value.list vs s) = PlacedItems (s.raw_begin + 1) (s.raw_end - 1) vs
  Inner (Value.dict d s) = IsOrdered d × PlacedFields (s.raw_begin + 1) (s.raw_end - 1) d

  pub PlacedItems : ℕ → ℕ → Items → Type 0
  PlacedItems low high Items.no_items = low ≤ high
  PlacedItems low high (Items.item v vs) =
      IsWithin low high (span_of v) × Inner v × PlacedItems (span_of v).raw_end high vs

  pub PlacedFields : ℕ → ℕ → Fields → Type 0
  PlacedFields low high Fields.no_fields = Unit
  PlacedFields low high (Fields.field key v d) =
      IsWithin low high (span_of v) × Inner v × PlacedFields low high d

PlacedFields-mono :
    (low high more : ℕ) (d : Fields)
    → high ≤ more
    → PlacedFields low high d
    → PlacedFields low more d
unfolding PlacedFields
PlacedFields-mono low high more Fields.no_fields le h = tt
PlacedFields-mono low high more (Fields.field key v d) le (within, inner, rest) =
    ((within.0, within.1, omega arith), inner, PlacedFields-mono low high more d le rest)

emplace-PlacedFields :
    (low high : ℕ) (key : Bytes) (v : Value) (d : Fields)
    → IsWithin low high (span_of v)
    → Inner v
    → PlacedFields low high d
    → PlacedFields low high (emplace key v d)
unfolding emplace PlacedFields
emplace-PlacedFields low high key v Fields.no_fields within inner h = (within, inner, tt)
emplace-PlacedFields low high key v (Fields.field k w d) within inner h =
    elim (compare_keys key k)
      as (λ order. PlacedFields low high (elim order [
        | Ordering.lt ↦ Fields.field key v (Fields.field k w d)
        | Ordering.eq ↦ Fields.field k w d
        | Ordering.gt ↦ Fields.field k w (emplace key v d)
      ])) [
        | Ordering.lt ↦ (within, inner, h)
        | Ordering.eq ↦ h
        | Ordering.gt ↦ (h.0, h.1, emplace-PlacedFields low high key v d within inner h.2)
      ]

-- What a value says of itself once it is read from the first cursor to the second.
abbrev ReadFrom : Cursor → Value × Cursor → Type 0
ReadFrom c (v, c') =
    Ahead c c' × ((span_of v).raw_begin ≡ c.pos) × ((span_of v).raw_end ≡ c'.pos) × Inner v

as_value-ReadFrom :
    {A : Type 0} (c : Cursor) (make : A → Span → Value) {r : Result (A × Cursor)}
    (P : A → Cursor → Type 0)
    → ((a : A) (s : Span) → span_of (make a s) ≡ s)
    → ((a : A) (c' : Cursor) → P a c' → Ahead c c' × Inner (make a (span c c')))
    → Ends (λ (a, c'). P a c') r
    → Ends (ReadFrom c) (as_value c make r)
as_value-ReadFrom c make P placed good ends = Ends-bind ends (λ (a, c') h. Ends-ok (
  (good a c' h).0,
  ap (λ s. s.raw_begin) (placed a (span c c')),
  ap (λ s. s.raw_end) (placed a (span c c')),
  (good a c' h).1,
))

mutual
  unfolding parse Inner PlacedItems PlacedFields

  pub parse-Ends :
      (f depth pos : ℕ) (rest : Bytes)
      → 2 * length rest < f
      → Ends
          (ReadFrom (record { pos = pos; rest = rest }))
          (parse f depth (record { pos = pos; rest = rest }))
  parse-Ends zero depth pos rest enough = absurd (omega arith)
  parse-Ends (suc f) depth pos [] enough =
      Ends-if (ltb max_depth depth) (Ends-err refl) (Ends-err refl)
  parse-Ends (suc f) depth pos (b ∷ rest) enough =
      let c : Cursor = record { pos = pos; rest = b ∷ rest } in
      Ends-if (ltb max_depth depth) (Ends-err refl) (
        Ends-if (b == 105)
          (as_value-ReadFrom c Value.int (λ n c'. ReadsNumber (advance c) (n, c')) (λ n s. refl)
            (λ n c' read. ((omega arith, omega arith), read.1))
            (read_number-Ahead 101 true (advance c)))
          (Ends-if (b == 108)
            (as_value-ReadFrom c Value.list
              (λ vs c'. Ahead (advance c) c' × PlacedItems (pos + 1) (c'.pos - 1) vs) (λ n s. refl)
              (λ n c' h. ((omega arith, omega arith), h.1))
              (parse_list-Ends f depth (pos + 1) rest (omega arith)))
            (Ends-if (b == 100)
              (as_value-ReadFrom c Value.dict
                (λ d c'. Ahead (advance c) c' × IsOrdered d × PlacedFields (pos + 1) (c'.pos - 1) d)
                (λ n s. refl) (λ n c' h. ((omega arith, omega arith), (h.1, h.2)))
                (parse_dict-Ends f depth (pos + 1) (pos + 1) Fields.no_fields rest (omega arith)
                  (omega arith) tt tt))
              (Ends-if (is_digit b)
                (as_value-ReadFrom c Value.str (λ b c'. ReadsText c (b, c')) (λ n s. refl)
                  (λ b c' read. read) (parse_str-Ahead c))
                (Ends-err refl)))))

  pub parse_list-Ends :
      (f depth pos : ℕ) (rest : Bytes)
      → 2 * length rest + 1 < f
      → Ends
          (λ (vs, c').
            Ahead (record { pos = pos; rest = rest }) c' × PlacedItems pos (c'.pos - 1) vs)
          (parse_list f depth (record { pos = pos; rest = rest }))
  parse_list-Ends zero depth pos rest enough = absurd (omega arith)
  parse_list-Ends (suc f) depth pos [] enough = Ends-err refl
  parse_list-Ends (suc f) depth pos (b ∷ rest) enough =
      Ends-if (b == 101) (Ends-ok ((omega arith, omega arith), omega arith)) (
        Ends-bind (parse-Ends f (depth + 1) pos (b ∷ rest) (omega arith)) (λ (v, c') h.
          Ends-bind (parse_list-Ends f depth c'.pos c'.rest (omega arith)) (λ (vs, c'') h'.
            Ends-ok (
              (omega arith, omega arith),
              (
                (omega arith, omega arith, omega arith),
                h.3,
                subst (λ n. PlacedItems n (c''.pos - 1) vs) (sym h.2) h'.1,
              ),
            ))))

  pub parse_dict-Ends :
      (f depth low pos : ℕ) (d : Fields) (rest : Bytes)
      → 2 * length rest + 1 < f
      → low ≤ pos
      → IsOrdered d
      → PlacedFields low pos d
      → Ends
          (λ (d', c').
            Ahead (record { pos = pos; rest = rest }) c'
            × IsOrdered d'
            × PlacedFields low (c'.pos - 1) d')
          (parse_dict f depth d (record { pos = pos; rest = rest }))
  parse_dict-Ends zero depth low pos d rest enough le ordered placed = absurd (omega arith)
  parse_dict-Ends (suc f) depth low pos d [] enough le ordered placed = Ends-err refl
  parse_dict-Ends (suc f) depth low pos d (b ∷ rest) enough le ordered placed =
      Ends-if (b == 101)
        (Ends-ok (
          (omega arith, omega arith),
          ordered,
          PlacedFields-mono low pos (pos + 1 - 1) d (omega arith) placed,
        ))
        (Ends-if (is_digit b)
          (Ends-bind (parse_str-Ahead (record { pos = pos; rest = b ∷ rest })) (λ (key, c') h.
            Ends-bind (parse-Ends f (depth + 1) c'.pos c'.rest (omega arith)) (λ (v, c'') h'.
              Ends-mono (λ (d', c3) h''. ((omega arith, omega arith), h''.1, h''.2))
                (parse_dict-Ends f depth low c''.pos (emplace key v d) c''.rest (omega arith)
                  (omega arith) (emplace-IsOrdered key v d ordered)
                  (emplace-PlacedFields low c''.pos key v d (omega arith, omega arith, omega arith)
                    h'.3 (PlacedFields-mono low pos c''.pos d (omega arith) placed))))))
          (Ends-err refl))

bdecode-Ends :
    (buf : Bytes)
    → Ends
        (λ v.
          ((span_of v).raw_begin ≡ 0)
          × (0 < (span_of v).raw_end)
          × ((span_of v).raw_end ≤ length buf)
          × Inner v)
        (bdecode buf)
unfolding bdecode
bdecode-Ends buf =
    Ends-bind (parse-Ends (2 * length buf + 1) 0 0 buf (omega arith))
      (λ (v, c) h. Ends-ok (h.1, omega arith, omega arith, h.3))

-- The fuel that `bdecode` gives is enough for every buffer.
pub bdecode_terminates : (buf : Bytes) → bdecode buf ≢ err Error.out_of_fuel
bdecode_terminates buf e = cc (subst (Ends _) e (bdecode-Ends buf)).outcome

-- The value decoded starts at the start of the buffer and ends inside it. What it holds stands inside
-- it: each value has at least a byte, the items of a list follow one another, and the values of a
-- dictionary lie between its first and its last byte, under keys that rise strictly; numbers are at
-- most 2^63 - 1 in magnitude, strings at most 64 MiB.
pub bdecode-Inner :
    (buf : Bytes) (v : Value)
    → bdecode buf ≡ ok v
    → ((span_of v).raw_begin ≡ 0)
      × (0 < (span_of v).raw_end)
      × ((span_of v).raw_end ≤ length buf)
      × Inner v
bdecode-Inner buf v e = (subst (Ends _) e (bdecode-Ends buf)).outcome
