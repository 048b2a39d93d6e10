-- ===== src/Bencode/Numbers.antt =====
-- The decoder reads back the numbers that the encoder prints.
use torfoil.Prelude.{
  ℕ, zero, suc, ◌+◌, ◌-◌, ◌*◌, ◌/◌, ◌%◌, ◌≤◌, ◌<◌, Bool, true, false, [], ◌∷◌, ◌++◌, append_assoc,
  ◌≡◌, ◌≢◌, refl, sym, subst, ◌∙◌, ap, length, length-append, take-append, drop-append, Bytes, ◌&&◌,
  ltb, ◌==◌, if◌then◌else◌, arith, dec_lt,
}
use torfoil.Bencode.{
  Integer, plus, minus, ok, is_digit, scan_digits, starts_with_zero, read_unsigned, read_number,
  int64_max, parse_str, max_string_len,
}
use torfoil.Bencode.Encode.{digits, decimal, to_string, encode_str}

-- One digit.
scan_digit :
    (value d n pos : ℕ) (rest : Bytes)
    → d < 10
    → value * 10 + d ≡ n
    → n ≤ 9223372036854775807
    → scan_digits value pos ((48 + d) ∷ rest) ≡ scan_digits n (pos + 1) rest
unfolding scan_digits
scan_digit value d n pos rest small whole fits =
    let it : is_digit (48 + d) ≡ true = ground arith in
    let same : 48 + d - 48 ≡ d = omega arith in
    let guard : ltb ((int64_max - d) / 10) value ≡ false = ground arith in
    rw (same, it, guard, whole) refl

digits_small : (f n : ℕ) → n < 10 → digits (suc f) n ≡ (48 + n) ∷ []
unfolding digits
digits_small f n small = let it : ltb n 10 ≡ true = ground arith in rw it refl

digits_large : (f n : ℕ) → 10 ≤ n → digits (suc f) n ≡ digits f (n / 10) ++ (48 + n % 10) ∷ []
unfolding digits
digits_large f n large = let it : ltb n 10 ≡ false = ground arith in rw it refl

pub scan_digits-digits :
    (f n pos : ℕ) (rest : Bytes)
    → n < f
    → n ≤ 9223372036854775807
    → scan_digits 0 pos (digits f n ++ rest) ≡ scan_digits n (pos + length (digits f n)) rest
scan_digits-digits zero n pos rest enough fits = absurd (omega arith)
scan_digits-digits (suc f) n pos rest enough fits = elim (dec_lt n 10) [
  | yes small ↦
      rw (digits_small f n small) (scan_digit 0 n n pos rest small (omega arith) (omega arith))
  | no large ↦
      let front = digits f (n / 10) in
      let last = 48 + n % 10 in
      let long : length (front ++ last ∷ []) ≡ length front + 1 = length-append front (last ∷ []) in
      let place : pos + length front + 1 ≡ pos + (length front + 1) = omega arith in
      let below : scan_digits 0 pos (front ++ last ∷ rest)
          ≡ scan_digits (n / 10) (pos + length front) (last ∷ rest) =
        scan_digits-digits f (n / 10) pos (last ∷ rest) (omega arith) (omega arith) in
      let step : scan_digits (n / 10) (pos + length front) (last ∷ rest)
          ≡ scan_digits n (pos + (length front + 1)) rest =
        scan_digit (n / 10) (n % 10) n (pos + length front) rest (omega arith) (omega arith)
          (omega arith)
        ∙ rw place refl in
      rw (digits_large f n (omega arith), long, append_assoc front (last ∷ []) rest) (below ∙ step)
]

-- The first digit is not zero, but for the number zero.
pub digits_head :
    (f n : ℕ) (rest : Bytes)
    → n < f
    → (d : ℕ) × (more : Bytes) × (digits f n ++ rest ≡ (48 + d) ∷ more) × (d < 10) × (d ≡ 0 → n ≡ 0)
digits_head zero n rest enough = absurd (omega arith)
digits_head (suc f) n rest enough = elim (dec_lt n 10) [
  | yes small ↦ (n, rest, rw (digits_small f n small) refl, small, λ e. e)
  | no large ↦
      let front = digits_head f (n / 10) ((48 + n % 10) ∷ rest) (omega arith) in
      (
        front.0,
        front.1,
        rw
            (
              digits_large f n (omega arith),
              append_assoc (digits f (n / 10)) ((48 + n % 10) ∷ []) rest,
            )
            front.2,
        front.3,
        λ e. omega (arith, front.4 e),
      )
]

digits_long : (f n : ℕ) → n < f → 0 < length (digits f n)
digits_long f n enough =
    let head = digits_head f n [] enough in
    omega (arith, ap length head.2, length-append (digits f n) [])

decimal_small : (n : ℕ) → n < 10 → decimal n ≡ (48 + n) ∷ []
decimal_small n small =
    subst (λ f. digits f n ≡ (48 + n) ∷ []) (omega arith) (digits_small n n small)

and_false : (a b : Bool) → b ≡ false → (a && b) ≡ false
and_false true b h = h
and_false false b h = refl

leading_zero_lem :
    (n pos : ℕ) (rest : Bytes)
    → (starts_with_zero (decimal n ++ rest) && ltb 1 (pos + length (decimal n) - pos)) ≡ false
leading_zero_lem n pos rest = elim (dec_lt n 10) [
  | yes small ↦
      let short : length (decimal n) ≡ 1 = ap length (decimal_small n small) in
      let it : ltb 1 (pos + length (decimal n) - pos) ≡ false = ground arith in
      and_false (starts_with_zero (decimal n ++ rest)) _ it
  | no large ↦
      let head = digits_head (n + 1) n rest (omega arith) in
      let other : head.0 ≢ 0 = λ e. omega (arith, head.4 e) in
      let it : (48 + head.0 == 48) ≡ false = ground arith in rw (head.2, it) refl
]

read_unsigned-decimal :
    (terminator : ℕ) (negative : Bool) (n pos : ℕ) (rest : Bytes)
    → n ≤ 9223372036854775807
    → is_digit terminator ≡ false
    → (negative && n == 0) ≡ false
    → read_unsigned terminator negative
        (record { pos = pos; rest = decimal n ++ terminator ∷ rest })
      ≡ ok (
        if negative then minus n else plus n,
        record { pos = pos + length (decimal n) + 1; rest = rest },
      )
unfolding read_unsigned
read_unsigned-decimal terminator negative n pos rest fits ends sign =
    let scanned : scan_digits 0 pos (decimal n ++ terminator ∷ rest)
        ≡ ok (n, record { pos = pos + length (decimal n); rest = terminator ∷ rest }) =
      scan_digits-digits (n + 1) n pos (terminator ∷ rest) (omega arith) fits ∙ rw ends refl in
    let moved : ((pos + length (decimal n)) == pos) ≡ false =
      let long = digits_long (n + 1) n (omega arith) in ground arith in
    let same : (terminator == terminator) ≡ true = ground arith in
    rw (scanned, moved, leading_zero_lem n pos (terminator ∷ rest), sign, same) refl

read_number-digit :
    (terminator : ℕ) (allow : Bool) (pos d : ℕ) (more bytes : Bytes)
    → (48 + d) ∷ more ≡ bytes
    → read_number terminator allow (record { pos = pos; rest = bytes })
      ≡ read_unsigned terminator false (record { pos = pos; rest = bytes })
unfolding read_number
read_number-digit terminator allow pos d more bytes e =
    let other : (48 + d == 45) ≡ false = ground arith in
    subst
      (λ b.
        read_number terminator allow (record { pos = pos; rest = b })
        ≡ read_unsigned terminator false (record { pos = pos; rest = b }))
      e (rw other refl)

-- A number that `read_number` may read: in the range of `int64_t`, negative only where that is allowed.
abbrev pub IsReadable : Bool → Integer → Type 0
IsReadable allow (plus n) = n ≤ 9223372036854775807
IsReadable allow (minus n) = (allow ≡ true) × (0 < n) × (n ≤ 9223372036854775807)

-- A printed number of at most 2^63 - 1 in magnitude is read back, with its terminator, whatever
-- follows, where its sign is allowed.
pub read_number-to_string :
    (terminator : ℕ) (allow : Bool) (n : Integer) (pos : ℕ) (rest : Bytes)
    → is_digit terminator ≡ false
    → IsReadable allow n
    → read_number terminator allow (record { pos = pos; rest = to_string n ++ terminator ∷ rest })
      ≡ ok (n, record { pos = pos + length (to_string n) + 1; rest = rest })
unfolding to_string read_number
read_number-to_string terminator allow (plus n) pos rest ends readable =
    let head = digits_head (n + 1) n (terminator ∷ rest) (omega arith) in
    read_number-digit terminator allow pos head.0 head.1 (decimal n ++ terminator ∷ rest)
      (sym head.2)
    ∙ read_unsigned-decimal terminator false n pos rest readable ends refl
read_number-to_string terminator allow (minus n) pos rest ends (allowed, positive, fits) =
    let sign : (true && n == 0) ≡ false = ground arith in
    let place : pos + 1 + length (decimal n) + 1 ≡ pos + suc (length (decimal n)) + 1 =
      omega arith in
    rw (allowed, read_unsigned-decimal terminator true n (pos + 1) rest fits ends sign, place) refl

-- A string printed with its length is read back, whatever follows, if it is not too long.
pub parse_str-encode_str :
    (b : Bytes) (pos : ℕ) (rest : Bytes)
    → length b ≤ 67108864
    → parse_str (record { pos = pos; rest = encode_str b ++ rest })
      ≡ ok (b, record { pos = pos + length (encode_str b); rest = rest })
unfolding parse_str encode_str to_string
parse_str-encode_str b pos rest fits =
    let read : read_number 58 false
          (record { pos = pos; rest = decimal (length b) ++ 58 ∷ (b ++ rest) })
        ≡ ok (
          plus (length b),
          record { pos = pos + length (decimal (length b)) + 1; rest = b ++ rest },
        ) =
      read_number-to_string 58 false (plus (length b)) pos (b ++ rest) refl (omega arith) in
    let small : ltb max_string_len (length b) ≡ false = ground arith in
    let whole : ltb (length (b ++ rest)) (length b) ≡ false =
      ground (arith, length-append b rest) in
    let place : pos + length (decimal (length b)) + 1 + length b
        ≡ pos + length (decimal (length b) ++ 58 ∷ b) =
      omega (arith, length-append (decimal (length b)) (58 ∷ b)) in
    rw
      (
        append_assoc (decimal (length b)) (58 ∷ b) rest,
        read,
        small,
        whole,
        take-append b rest,
        drop-append b rest,
        place,
      )
      refl
