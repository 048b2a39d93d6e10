-- ===== src/WireGuard/Keys/RoundTrip.antt =====
-- source/net/wg/wireguard.cpp: a key printed in base 64 and read back.
use torfoil.Prelude.{
  ℕ, suc, ◌+◌, ◌*◌, ◌/◌, ◌%◌, ◌^◌, ◌<◌, Bool, true, false, not, Option, none, some, [], ◌∷◌, ◌≡◌,
  refl, sym, ap, ◌∙◌, ◌==◌, ==_iff, if◌then◌else◌, ◌>>=◌, >>=-some, Bool-cases, inl, inr, length,
  Bytes, IsByte, All, arith, table, table_lem,
}
use torfoil.Bytes.Base32.{absorb, emit, length-stop, length-absorb}
use torfoil.WireGuard.Keys.{
  alphabet, is_skipped, base64_digit, base64_loop, key_to_base64, key_from_base64,
}

kept_row : ℕ → Bool
kept_row v = not (is_skipped (alphabet v))

kept_rows : table kept_row 64 ≡ true
unfolding table kept_row
kept_rows = refl

read_row : ℕ → Bool
read_row v = elim (base64_digit (alphabet v)) [ none ↦ false | some w ↦ w == v ]

read_rows : table read_row 64 ≡ true
unfolding table read_row base64_digit
read_rows = refl

alphabet-kept : (v : ℕ) → v < 64 → is_skipped (alphabet v) ≡ false
unfolding kept_row
alphabet-kept v h = go (is_skipped (alphabet v)) (table_lem kept_row 64 v h kept_rows)
  where
    go : (b : Bool) → not b ≡ true → b ≡ false
    go true e = absurd (cc)
    go false e = refl

base64_digit-alphabet : (v : ℕ) → v < 64 → base64_digit (alphabet v) ≡ some v
unfolding read_row
base64_digit-alphabet v h = go (base64_digit (alphabet v)) (table_lem read_row 64 v h read_rows)
  where
    go :
        (o : Option ℕ)
        → elim o as (λ _. Bool) [ none ↦ false | some w ↦ w == v ] ≡ true
        → o ≡ some v
    go none e = absurd (cc)
    go (some w) e = ap some ((==_iff w v).0 e)

-- A character of the alphabet is taken for its value.
loop_digit :
    (v acc bits room : ℕ) (rest : Bytes)
    → v < 64
    → base64_loop acc bits room (alphabet v ∷ rest)
      ≡ absorb 6 v acc bits room (λ a b r. base64_loop a b r rest)
unfolding base64_loop
loop_digit v acc bits room rest h =
    ap
      (λ t. if t then base64_loop acc bits room rest else (do
        w ← base64_digit (alphabet v)
        absorb 6 w acc bits room (λ a b r. base64_loop a b r rest)))
      (alphabet-kept v h)
    ∙ ap (λ o. o >>= λ w. absorb 6 w acc bits room (λ a b r. base64_loop a b r rest))
        (base64_digit-alphabet v h)

-- The accumulator after one more character.
abbrev shifted : ℕ → ℕ → ℕ
shifted acc v = (acc * 64 + v) % 2 ^ 32

-- Two characters give a byte, a third one more, and a fourth the last.
two_digits :
    (v w acc room : ℕ) (rest : Bytes)
    → v < 64
    → w < 64
    → base64_loop acc 0 (suc room) (alphabet v ∷ alphabet w ∷ rest) ≡ (
        base64_loop (shifted (shifted acc v) w) 4 room rest >>= λ out.
        some ((shifted (shifted acc v) w / 16 % 256) ∷ out))
unfolding absorb emit
two_digits v w acc room rest hv hw =
    loop_digit v acc 0 (suc room) (alphabet w ∷ rest) hv
    ∙ loop_digit w (shifted acc v) 6 (suc room) rest hw

third_digit :
    (v acc room : ℕ) (rest : Bytes)
    → v < 64
    → base64_loop acc 4 (suc room) (alphabet v ∷ rest)
      ≡ (base64_loop (shifted acc v) 2 room rest >>= λ out. some ((shifted acc v / 4 % 256) ∷ out))
unfolding absorb emit
third_digit v acc room rest hv = loop_digit v acc 4 (suc room) rest hv

fourth_digit :
    (v acc room : ℕ) (rest : Bytes)
    → v < 64
    → base64_loop acc 2 (suc room) (alphabet v ∷ rest)
      ≡ (base64_loop (shifted acc v) 0 room rest >>= λ out. some ((shifted acc v % 256) ∷ out))
unfolding absorb emit
fourth_digit v acc room rest hv =
    loop_digit v acc 2 (suc room) rest hv
    ∙ ap (λ n. base64_loop (shifted acc v) 0 room rest >>= λ out. some ((n % 256) ∷ out))
        (omega arith)

-- The bytes that come out for the sextets of a triple.
first_byte :
    (acc t : ℕ)
    → t < 2 ^ 24
    → shifted (shifted acc (t / 2 ^ 18 % 64)) (t / 2 ^ 12 % 64) / 16 % 256 ≡ t / 2 ^ 16
first_byte acc t h = omega arith

second_byte :
    (acc t : ℕ)
    → shifted (shifted acc (t / 2 ^ 12 % 64)) (t / 2 ^ 6 % 64) / 4 % 256 ≡ t / 2 ^ 8 % 256
second_byte acc t = omega arith

third_byte : (acc t : ℕ) → shifted (shifted acc (t / 2 ^ 6 % 64)) (t % 64) % 256 ≡ t % 256
third_byte acc t = omega arith

-- The triple's characters, one after the other.
triple_first :
    (acc room t a : ℕ) (rest : Bytes)
    → t < 2 ^ 24
    → t / 2 ^ 16 ≡ a
    → base64_loop acc 0 (suc room) (alphabet (t / 2 ^ 18 % 64) ∷ alphabet (t / 2 ^ 12 % 64) ∷ rest)
      ≡ (base64_loop (shifted (shifted acc (t / 2 ^ 18 % 64)) (t / 2 ^ 12 % 64)) 4 room rest
          >>= λ out. some (a ∷ out))
triple_first acc room t a rest h e =
    two_digits (t / 2 ^ 18 % 64) (t / 2 ^ 12 % 64) acc room rest (omega arith) (omega arith)
    ∙ ap
        (λ x.
          base64_loop (shifted (shifted acc (t / 2 ^ 18 % 64)) (t / 2 ^ 12 % 64)) 4 room rest
          >>= λ out. some (x ∷ out))
        (first_byte acc t h ∙ e)

triple_second :
    (acc room t b : ℕ) (rest : Bytes)
    → t / 2 ^ 8 % 256 ≡ b
    → (let acc' = shifted acc (t / 2 ^ 12 % 64) in
        base64_loop acc' 4 (suc room) (alphabet (t / 2 ^ 6 % 64) ∷ rest)
        ≡ (base64_loop (shifted acc' (t / 2 ^ 6 % 64)) 2 room rest >>= λ out. some (b ∷ out)))
triple_second acc room t b rest e =
    third_digit (t / 2 ^ 6 % 64) (shifted acc (t / 2 ^ 12 % 64)) room rest (omega arith)
    ∙ ap
        (λ x.
          base64_loop (shifted (shifted acc (t / 2 ^ 12 % 64)) (t / 2 ^ 6 % 64)) 2 room rest
          >>= λ out. some (x ∷ out))
        (second_byte acc t ∙ e)

triple_third :
    (acc room t c : ℕ) (rest : Bytes)
    → t % 256 ≡ c
    → (let acc' = shifted acc (t / 2 ^ 6 % 64) in
        base64_loop acc' 2 (suc room) (alphabet (t % 64) ∷ rest)
        ≡ (base64_loop (shifted acc' (t % 64)) 0 room rest >>= λ out. some (c ∷ out)))
triple_third acc room t c rest e =
    fourth_digit (t % 64) (shifted acc (t / 2 ^ 6 % 64)) room rest (omega arith)
    ∙ ap
        (λ x. base64_loop (shifted (shifted acc (t / 2 ^ 6 % 64)) (t % 64)) 0 room rest >>= λ out.
          some (x ∷ out))
        (third_byte acc t ∙ e)

loop-key_to_base64 :
    (key : Bytes) (acc : ℕ)
    → All IsByte key
    → base64_loop acc 0 (length key) (key_to_base64 key) ≡ some key
unfolding key_to_base64 base64_loop
loop-key_to_base64 [] acc h = refl
loop-key_to_base64 (a ∷ []) acc h =
    triple_first acc 0 (a * 2 ^ 16) a (b'=' ∷ b'=' ∷ []) (omega (arith, h.0)) (omega arith)
loop-key_to_base64 (a ∷ b ∷ []) acc h =
    let t = a * 2 ^ 16 + b * 2 ^ 8 in
    triple_first acc 1 t a (alphabet (t / 2 ^ 6 % 64) ∷ b'=' ∷ []) (omega (arith, h.0, h.1.0))
      (omega (arith, h.1.0))
    ∙ ap (λ o. o >>= λ out. some (a ∷ out))
        (triple_second (shifted acc (t / 2 ^ 18 % 64)) 0 t b (b'=' ∷ []) (omega (arith, h.1.0)))
loop-key_to_base64 (a ∷ b ∷ c ∷ key) acc h =
    let t = a * 2 ^ 16 + b * 2 ^ 8 + c in
    let last = alphabet (t % 64) ∷ key_to_base64 key in
    let acc1 = shifted acc (t / 2 ^ 18 % 64) in
    let acc2 = shifted acc1 (t / 2 ^ 12 % 64) in
    triple_first acc (suc (suc (length key))) t a (alphabet (t / 2 ^ 6 % 64) ∷ last)
      (omega (arith, h.0, h.1.0, h.1.1.0)) (omega (arith, h.1.0, h.1.1.0))
    ∙ ap (λ o. o >>= λ out. some (a ∷ out))
        (triple_second acc1 (suc (length key)) t b last (omega (arith, h.1.0, h.1.1.0))
          ∙ ap (λ o. o >>= λ out. some (b ∷ out))
              (triple_third acc2 (length key) t c (key_to_base64 key) (omega (arith, h.1.1.0))
                ∙ ap (λ o. o >>= λ out. some (c ∷ out))
                    (loop-key_to_base64 key (shifted (shifted acc2 (t / 2 ^ 6 % 64)) (t % 64))
                      h.1.1.1)))

-- A key of 32 bytes printed in base 64 is read back.
pub key_from_base64-key_to_base64 :
    (key : Bytes)
    → length key ≡ 32
    → All IsByte key
    → key_from_base64 (key_to_base64 key) ≡ some key
unfolding key_from_base64
key_from_base64-key_to_base64 key size h =
    ap (λ n. base64_loop 0 0 n (key_to_base64 key)) (sym size) ∙ loop-key_to_base64 key 0 h

loop-length :
    (acc bits room : ℕ) (text out : Bytes)
    → base64_loop acc bits room text ≡ some out
    → length out ≡ room
unfolding base64_loop
loop-length acc bits room [] out h = length-stop room out h
loop-length acc bits room (c ∷ rest) out h = elim (Bool-cases (is_skipped c)) [
  | inl e ↦ loop-length acc bits room rest out (rw e at h)
  | inr e ↦
      let h' = rw e at h in
      let (v, _, taken) = >>=-some (base64_digit c) _ h' in
      length-absorb 6 v acc bits room _ out (λ a b r o read. loop-length a b r rest o read) taken
]

-- Whatever the text, a key read from it has 32 bytes.
pub length-key_from_base64 : (text key : Bytes) → key_from_base64 text ≡ some key → length key ≡ 32
unfolding key_from_base64
length-key_from_base64 text key h = loop-length 0 0 32 text key h
