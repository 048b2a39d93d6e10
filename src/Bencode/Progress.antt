-- ===== src/Bencode/Progress.antt =====
-- How far each step of the decoder moves its position, and the range of what it reads.
use torfoil.Prelude.{
  ℕ, ◌+◌, ◌-◌, ◌*◌, ◌≤◌, ◌<◌, Bool, [], ◌∷◌, ◌≡◌, refl, length, Bytes, ltb, ◌==◌, if◌then◌else◌,
  ◌&&◌, length-drop, length-take, ◌/◌, arith, true, false, ltb→ge,
}
use torfoil.Bencode.{
  Integer, Cursor, scan_digits, finish_number, read_unsigned, read_number, parse_str, magnitude,
  max_string_len, starts_with_zero, is_digit,
}
use torfoil.Bencode.Outcome.{Ends, Ends-ok, Ends-err, Ends-if, Ends-bind, Ends-mono, Ends-test}

-- The first cursor is where the second came from.
abbrev pub Behind : Cursor → Cursor → Type 0
Behind c c' = (c'.pos + length c'.rest ≡ c.pos + length c.rest) × (length c'.rest ≤ length c.rest)

abbrev pub Ahead : Cursor → Cursor → Type 0
Ahead c c' = (c'.pos + length c'.rest ≡ c.pos + length c.rest) × (length c'.rest < length c.rest)

-- A number in the range of `int64_t`, and where it ends.
abbrev pub ReadsNumber : Cursor → Integer × Cursor → Type 0
ReadsNumber c (n, c') = Ahead c c' × (magnitude n ≤ 9223372036854775807)

-- A string of at most 64 MiB, and where it ends.
abbrev pub ReadsText : Cursor → Bytes × Cursor → Type 0
ReadsText c (b, c') = Ahead c c' × (length b ≤ 67108864)

pub scan_digits-Behind :
    (value pos : ℕ) (rest : Bytes)
    → value ≤ 9223372036854775807
    → Ends
        (λ (n, c'). Behind (record { pos = pos; rest = rest }) c' × (n ≤ 9223372036854775807))
        (scan_digits value pos rest)
unfolding scan_digits
scan_digits-Behind value pos [] fits = Ends-ok ((omega arith, omega arith), fits)
scan_digits-Behind value pos (c ∷ rest) fits =
    Ends-test {test = is_digit c}
      (λ digit.
        Ends-test {test = ltb ((9223372036854775807 - (c - 48)) / 10) value} (λ _. Ends-err refl)
          (λ small.
            let room : value ≤ (9223372036854775807 - (c - 48)) / 10 = ltb→ge _ _ small in
            let low : c - 48 ≤ 9 = ground arith in
            Ends-mono (λ _ h. ((omega arith, omega arith), h.1))
              (scan_digits-Behind (value * 10 + (c - 48)) (pos + 1) rest (omega arith))))
      (λ _. Ends-ok ((omega arith, omega arith), fits))

-- A delimiter is passed.
finish_rest-Ahead :
    (terminator : ℕ) (n : Integer) (pos : ℕ) (rest : Bytes)
    → magnitude n ≤ 9223372036854775807
    → Ends
        (ReadsNumber (record { pos = pos; rest = rest }))
        (finish_number terminator n (record { pos = pos; rest = rest }))
unfolding finish_number
finish_rest-Ahead terminator n pos [] fits = Ends-err refl
finish_rest-Ahead terminator n pos (b ∷ rest) fits =
    Ends-if _ (Ends-ok ((omega arith, omega arith), fits)) (Ends-err refl)

magnitude_signed :
    (negative : Bool) (n : ℕ) → magnitude (if negative then Integer.minus n else Integer.plus n) ≡ n
magnitude_signed true n = refl
magnitude_signed false n = refl

pub read_unsigned-Ahead :
    (terminator : ℕ) (negative : Bool) (c : Cursor)
    → Ends (ReadsNumber c) (read_unsigned terminator negative c)
unfolding read_unsigned
read_unsigned-Ahead terminator negative c =
    Ends-bind (scan_digits-Behind 0 c.pos c.rest (omega arith)) (λ (value, c') behind.
      Ends-if (c'.pos == c.pos) (Ends-err refl) (
        Ends-if (starts_with_zero c.rest && ltb 1 (c'.pos - c.pos)) (Ends-err refl) (
          Ends-if (negative && value == 0) (Ends-err refl) (
            Ends-mono (λ _ ahead. ((omega arith, omega arith), ahead.1))
              (finish_rest-Ahead terminator
                (if negative then Integer.minus value else Integer.plus value) c'.pos c'.rest
                (omega (arith, magnitude_signed negative value)))))))

read_rest-Ahead :
    (terminator : ℕ) (allow_negative : Bool) (pos : ℕ) (rest : Bytes)
    → Ends
        (ReadsNumber (record { pos = pos; rest = rest }))
        (read_number terminator allow_negative (record { pos = pos; rest = rest }))
unfolding read_number
read_rest-Ahead terminator allow_negative pos [] =
    read_unsigned-Ahead terminator false (record { pos = pos; rest = [] })
read_rest-Ahead terminator allow_negative pos (b ∷ rest) =
    Ends-if (b == 45)
      (Ends-if allow_negative
        (Ends-mono (λ _ ahead. ((omega arith, omega arith), ahead.1))
          (read_unsigned-Ahead terminator true (record { pos = pos + 1; rest = rest })))
        (Ends-err refl))
      (read_unsigned-Ahead terminator false (record { pos = pos; rest = b ∷ rest }))

pub read_number-Ahead :
    (terminator : ℕ) (allow_negative : Bool) (c : Cursor)
    → Ends (ReadsNumber c) (read_number terminator allow_negative c)
read_number-Ahead terminator allow_negative c =
    read_rest-Ahead terminator allow_negative c.pos c.rest

pub parse_str-Ahead : (c : Cursor) → Ends (ReadsText c) (parse_str c)
unfolding parse_str
parse_str-Ahead c = Ends-bind (read_number-Ahead 58 false c) (λ (n, c') ahead.
    Ends-test {test = ltb max_string_len (magnitude n)} (λ _. Ends-err refl)
      (λ short.
        Ends-test {test = ltb (length c'.rest) (magnitude n)} (λ _. Ends-err refl)
          (λ fits. Ends-ok (
            (
              omega (arith, length-drop (magnitude n) c'.rest, ltb→ge _ _ fits),
              omega (arith, length-drop (magnitude n) c'.rest),
            ),
            omega (arith, length-take (magnitude n) c'.rest, ltb→ge _ _ short),
          ))))
