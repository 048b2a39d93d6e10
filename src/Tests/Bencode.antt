-- ===== src/Tests/Bencode.antt =====
-- source/bt/bencode.cpp at fixed inputs.
use torfoil.Prelude.{
  ◌∷◌, [], ◌++◌, true, ◌+◌, ◌≤◌, ◌<◌, ◌≡◌, ◌≢◌, arith, refl, some, length, Bytes, codes,
}
use torfoil.Bencode.{
  Integer, Value, Items, Fields, Error, ok, err, bdecode, read_number, compare_keys, emplace,
}
use torfoil.Bencode.Encode.{encode, bencode, to_string}
use torfoil.Bencode.Order.{IsOrdered}
use torfoil.Bencode.Lookup.{lookup, or_else, find_int, lookup-emplace}
use torfoil.Bencode.Numbers.{read_number-to_string}
use torfoil.Bencode.Locate.{locate, IsCanonical}
use torfoil.Bencode.RoundTrip.{bdecode-bencode}
use torfoil.Bencode.Spans.{span_of, Inner, bdecode_terminates, bdecode-Inner}

abbrev text : Bytes
text = codes "d1:bi-12e1:ali0e3:abcee!"

abbrev tree : Value
tree =
    Value.dict
      (Fields.field (codes "a")
        (Value.list
          (Items.item (Value.int (Integer.plus 0) (record { raw_begin = 13; raw_end = 16 })) (
            Items.item (Value.str (codes "abc") (record { raw_begin = 16; raw_end = 21 }))
              Items.no_items))
          (record { raw_begin = 12; raw_end = 22 }))
        (Fields.field (codes "b")
          (Value.int (Integer.minus 12) (record { raw_begin = 4; raw_end = 9 })) Fields.no_fields))
      (record { raw_begin = 0; raw_end = 23 })

bdecode_run : bdecode text ≡ ok tree
unfolding bdecode
bdecode_run = refl

bdecode_truncated : bdecode (codes "d1:a") ≡ err Error.input_truncated
unfolding bdecode
bdecode_truncated = refl

bdecode_zeros : bdecode (codes "i03e") ≡ err Error.leading_zero
unfolding bdecode
bdecode_zeros = refl

-- The first of two values under one key stays.
bdecode_doubled :
    bdecode (codes "d1:ai1e1:ai2ee")
    ≡ ok (
        Value.dict
          (Fields.field
            (codes "a")
            (Value.int (Integer.plus 1) (record { raw_begin = 4; raw_end = 7 }))
            Fields.no_fields)
          (record { raw_begin = 0; raw_end = 14 }))
unfolding bdecode
bdecode_doubled = refl

bencode_run : bencode tree ≡ codes "d1:ali0e3:abce1:bi-12ee"
unfolding encode
bencode_run = refl

find_int_run : find_int (codes "b") tree ≡ some (Integer.minus 12)
unfolding find_int compare_keys
find_int_run = refl

bdecode_terminates_example : bdecode text ≢ err Error.out_of_fuel
bdecode_terminates_example = bdecode_terminates text

bdecode-Inner_example :
    ((span_of tree).raw_begin ≡ 0)
    × (0 < (span_of tree).raw_end)
    × ((span_of tree).raw_end ≤ length text)
    × Inner tree
bdecode-Inner_example = bdecode-Inner text tree bdecode_run

abbrev one : Value
one = Value.int (Integer.plus 1) (record { raw_begin = 0; raw_end = 3 })

abbrev two_keys : Fields
two_keys = Fields.field (codes "a") one (Fields.field (codes "c") one Fields.no_fields)

two_keys-IsOrdered : IsOrdered two_keys
unfolding compare_keys
two_keys-IsOrdered = (refl, (tt, tt))

lookup-emplace_example :
    lookup (codes "b") (emplace (codes "b") one two_keys)
    ≡ some (or_else (lookup (codes "b") two_keys) one)
lookup-emplace_example = lookup-emplace (codes "b") one two_keys two_keys-IsOrdered

tree-IsCanonical : IsCanonical 0 tree
unfolding IsCanonical compare_keys
tree-IsCanonical = (
  omega arith,
  (refl, (tt, tt)),
  (
    omega arith,
    (omega arith, ((omega arith, omega arith), ((omega arith, omega arith), tt))),
    (omega arith, (omega arith, (refl, omega arith, omega arith)), tt),
  ),
)

bdecode-bencode_example : bdecode (bencode tree ++ codes "!") ≡ ok (locate 0 tree)
bdecode-bencode_example = bdecode-bencode tree (codes "!") tree-IsCanonical

bdecode_again : bdecode (bencode tree) ≡ ok (locate 0 tree)
unfolding bdecode encode locate
bdecode_again = refl

read_number-to_string_example :
    read_number 101 true (record { pos = 1; rest = to_string (Integer.minus 6881) ++ 101 ∷ [] })
    ≡ ok (
      Integer.minus 6881,
      record { pos = 1 + length (to_string (Integer.minus 6881)) + 1; rest = [] },
    )
read_number-to_string_example =
    read_number-to_string 101 true (Integer.minus 6881) 1 [] refl (refl, omega arith, omega arith)
