-- ===== src/Bencode/Steps.antt =====
-- How the decoder goes on, by the first byte of what the encoder printed.
use torfoil.Prelude.{
  ℕ, suc, ◌+◌, ◌≤◌, ◌<◌, true, false, [], ◌∷◌, ◌++◌, append_assoc, ◌≡◌, refl, sym, ◌∙◌, ap, subst,
  length, length-append, Bytes, ltb, ◌==◌, arith,
}
use torfoil.Bencode.{
  Value, Items, Fields, ok, ◌>>=◌, is_digit, emplace, max_depth, as_value, parse_str, parse,
  parse_list, parse_dict,
}
use torfoil.Bencode.Encode.{decimal, encode_str, encode}
use torfoil.Bencode.Numbers.{digits_head}

pub encode_str_head :
    (b rest : Bytes)
    → (d : ℕ) × (more : Bytes) × ((48 + d) ∷ more ≡ encode_str b ++ rest) × (d < 10)
unfolding encode_str
encode_str_head b rest =
    let head = digits_head (length b + 1) (length b) (58 ∷ b ++ rest) (omega arith) in
    (head.0, head.1, sym (append_assoc (decimal (length b)) (58 ∷ b) rest ∙ head.2), head.3)

pub encode_head :
    (v : Value) (rest : Bytes)
    → (c : ℕ) × (more : Bytes) × (c ∷ more ≡ encode v ++ rest) × ((c == 101) ≡ false)
unfolding encode
encode_head (Value.int n s) rest = (105, _, refl, refl)
encode_head (Value.str b s) rest =
    let head = encode_str_head b rest in (48 + head.0, head.1, head.2, ground arith)
encode_head (Value.list vs s) rest = (108, _, refl, refl)
encode_head (Value.dict d s) rest = (100, _, refl, refl)

pub encode_long : (v : Value) → 0 < length (encode v)
encode_long v =
    let head = encode_head v [] in omega (arith, ap length head.2, length-append (encode v) [])

pub parse_digit :
    (f depth pos d : ℕ) (more bytes : Bytes)
    → depth ≤ 32
    → d < 10
    → (48 + d) ∷ more ≡ bytes
    → parse (suc f) depth (record { pos = pos; rest = bytes })
      ≡ as_value
          (record { pos = pos; rest = bytes })
          Value.str
          (parse_str (record { pos = pos; rest = bytes }))
unfolding parse
parse_digit f depth pos d more bytes deep small e =
    let open_ : ltb max_depth depth ≡ false = ground arith in
    let i : (48 + d == 105) ≡ false = ground arith in
    let l : (48 + d == 108) ≡ false = ground arith in
    let t : (48 + d == 100) ≡ false = ground arith in
    let it : is_digit (48 + d) ≡ true = ground arith in
    subst
      (λ b.
        parse (suc f) depth (record { pos = pos; rest = b })
        ≡ as_value (record { pos = pos; rest = b }) Value.str
            (parse_str (record { pos = pos; rest = b })))
      e (rw (open_, i, l, t, it) refl)

pub parse_list_more :
    (f depth pos c : ℕ) (more bytes : Bytes)
    → (c == 101) ≡ false
    → c ∷ more ≡ bytes
    → parse_list (suc f) depth (record { pos = pos; rest = bytes }) ≡ (do
      (v, c') ← parse f (depth + 1) (record { pos = pos; rest = bytes })
      (rest, c'') ← parse_list f depth c'
      ok (Items.item v rest, c''))
unfolding parse
parse_list_more f depth pos c more bytes other e =
    subst
      (λ b. parse_list (suc f) depth (record { pos = pos; rest = b }) ≡ (do
        (v, c') ← parse f (depth + 1) (record { pos = pos; rest = b })
        (rest, c'') ← parse_list f depth c'
        ok (Items.item v rest, c'')))
      e (rw other refl)

pub parse_dict_more :
    (f depth pos d : ℕ) (acc : Fields) (more bytes : Bytes)
    → d < 10
    → (48 + d) ∷ more ≡ bytes
    → parse_dict (suc f) depth acc (record { pos = pos; rest = bytes }) ≡ (do
      (key, c') ← parse_str (record { pos = pos; rest = bytes })
      (v, c'') ← parse f (depth + 1) c'
      parse_dict f depth (emplace key v acc) c'')
unfolding parse
parse_dict_more f depth pos d acc more bytes small e =
    let other : (48 + d == 101) ≡ false = ground arith in
    let it : is_digit (48 + d) ≡ true = ground arith in
    subst
      (λ b. parse_dict (suc f) depth acc (record { pos = pos; rest = b }) ≡ (do
        (key, c') ← parse_str (record { pos = pos; rest = b })
        (v, c'') ← parse f (depth + 1) c'
        parse_dict f depth (emplace key v acc) c''))
      e (rw (other, it) refl)
