-- ===== src/Bytes/Base32/Value.antt =====
-- source/util/bytes.cpp: what `from_base32` accepts, and the bytes that it gives.
use torfoil.Prelude.{
  ℕ, zero, suc, ◌+◌, ◌-◌, ◌*◌, ◌/◌, ◌%◌, ◌^◌, ◌≤◌, ◌<◌, ◌≡◌, refl, ◌⊎◌, inl, inr, Option, none,
  some, List, [], ◌∷◌, arith, leb, ◌==◌, ==_iff, >>=-some, length, Bytes, Bool-cases, ap, sym, ◌∙◌,
  subst, All, IsByte,
}
use torfoil.Bytes.Base32.{
  to_upper, base32_digit, emit, absorb, stop, base32_loop, from_base32, length-from_base32,
}

-- The number that digits with the most significant first stand for, behind `n`.
abbrev pub number : ℕ → ℕ → List ℕ → ℕ
number base n [] = n
number base n (d ∷ digits) = number base (n * base + d) digits

-- A letter of either case, or a figure from 2 to 7.
abbrev pub IsBase32 : ℕ → ℕ → Type 0
IsBase32 c v =
    ((v < 26) × ((c ≡ b'A' + v) ⊎ (c ≡ b'a' + v))) ⊎ ((26 ≤ v) × (v < 32) × (c + 26 ≡ b'2' + v))

-- The digits of a text.
abbrev pub Reads : Bytes → List ℕ → Type 0
Reads [] [] = Unit
Reads [] (v ∷ digits) = ⊥
Reads (c ∷ text) [] = ⊥
Reads (c ∷ text) (v ∷ digits) = IsBase32 c v × Reads text digits

base32_digit_sound : (c v : ℕ) → base32_digit c ≡ some v → IsBase32 c v × (v < 32)
unfolding base32_digit to_upper
base32_digit_sound c v e = ground arith

-- One character more: the bits that were pending, and the digit, are a byte and the bits pending then.
abbrev pending_byte : ℕ → ℕ → ℕ → ℕ
pending_byte acc bits v = (acc * 2 ^ 5 + v) % 2 ^ 32 / 2 ^ (bits + 5 - 8) % 256

few_bits :
    (acc bits v n m : ℕ)
    → v < 32
    → bits < 3
    → m ≡ n * 2 ^ bits + acc % 2 ^ bits
    → m * 32 + v ≡ n * 2 ^ (bits + 5) + (acc * 2 ^ 5 + v) % 2 ^ 32 % 2 ^ (bits + 5)
few_bits acc zero v n m hv hb e = omega arith
few_bits acc (suc zero) v n m hv hb e = omega arith
few_bits acc (suc (suc zero)) v n m hv hb e = omega arith
few_bits acc (suc (suc (suc b))) v n m hv hb e = absurd (omega arith)

many_bits :
    (acc bits v n m : ℕ)
    → v < 32
    → 3 ≤ bits
    → bits < 8
    → m ≡ n * 2 ^ bits + acc % 2 ^ bits
    → m * 32 + v
      ≡ (n * 256 + pending_byte acc bits v) * 2 ^ (bits + 5 - 8)
        + (acc * 2 ^ 5 + v) % 2 ^ 32 % 2 ^ (bits + 5 - 8)
many_bits acc zero v n m hv lb hb e = absurd (omega arith)
many_bits acc (suc zero) v n m hv lb hb e = absurd (omega arith)
many_bits acc (suc (suc zero)) v n m hv lb hb e = absurd (omega arith)
many_bits acc (suc (suc (suc zero))) v n m hv lb hb e = omega arith
many_bits acc (suc (suc (suc (suc zero)))) v n m hv lb hb e = omega arith
many_bits acc (suc (suc (suc (suc (suc zero))))) v n m hv lb hb e = omega arith
many_bits acc (suc (suc (suc (suc (suc (suc zero)))))) v n m hv lb hb e = omega arith
many_bits acc (suc (suc (suc (suc (suc (suc (suc zero))))))) v n m hv lb hb e = omega arith
many_bits acc (suc (suc (suc (suc (suc (suc (suc (suc b)))))))) v n m hv lb hb e =
    absurd (omega arith)

-- What a loop with `bits` bits pending has read when it ends: digits, up to a padding, and of their bits
-- `left` at the end that were not enough for a byte.
record Decoded (bits : ℕ) (room : ℕ) (n : ℕ) (m : ℕ) (text : Bytes) (out : Bytes) : Type 0 where
  digits : List ℕ
  left : ℕ
  final : ℕ
  left_small : left < 8
  bytes : All IsByte out
  within : length digits ≤ length text
  reads : length digits ≡ length text → Reads text digits
  amount : bits + 5 * length digits ≡ 8 * room + left
  value : number 32 m digits ≡ number 256 n out * 2 ^ left + final % 2 ^ left

Decoded-stop :
    (acc bits room n m : ℕ) (text out : Bytes)
    → bits < 8
    → m ≡ n * 2 ^ bits + acc % 2 ^ bits
    → (length text ≡ 0 → Reads text [])
    → stop room ≡ some out
    → Decoded bits room n m text out
Decoded-stop acc bits room n m text out small e reads h = elim (Bool-cases (room == 0)) [
  | inl none_left ↦
      let h' : some [] ≡ some out = rw none_left at h in
      let is_empty : [] ≡ out = cc in
      subst (Decoded bits room n m text) is_empty (record {
        digits = [];
        left = bits;
        final = acc;
        left_small = small;
        bytes = tt;
        within = omega arith;
        reads = λ same. reads (sym same);
        amount = let no_room = (==_iff room 0).0 none_left in omega arith;
        value = e;
      })
  | inr some_left ↦ let h' : none ≡ some out = rw some_left at h in absurd (cc)
]

Decoded-digit :
    {bits' room' n' bits room n m : ℕ} {rest out' out : Bytes} (raw v : ℕ)
    → IsBase32 raw v
    → number 256 n out ≡ number 256 n' out'
    → (All IsByte out' → All IsByte out)
    → bits + 5 + 8 * room' ≡ bits' + 8 * room
    → Decoded bits' room' n' (m * 32 + v) rest out'
    → Decoded bits room n m (raw ∷ rest) out
Decoded-digit {rest = rest} {out' = out'} raw v is_digit same bytes amounts d = record {
  digits = v ∷ d.digits;
  left = d.left;
  final = d.final;
  left_small = d.left_small;
  bytes = bytes d.bytes;
  within = omega (arith, d.within);
  reads = λ e. (is_digit, d.reads (omega arith));
  amount = omega (arith, d.amount);
  value = d.value ∙ ap (λ k. k * 2 ^ d.left + d.final % 2 ^ d.left) (sym same);
}

-- What is asked of the rounds that follow.
abbrev Continues : Bytes → (ℕ → ℕ → ℕ → Option Bytes) → Type 0
Continues rest next =
    (acc bits room n m : ℕ) (out : Bytes)
    → bits < 8
    → m ≡ n * 2 ^ bits + acc % 2 ^ bits
    → next acc bits room ≡ some out
    → Decoded bits room n m rest out

emit-Decoded :
    (acc bits v room n m raw : ℕ) (next : ℕ → ℕ → ℕ → Option Bytes) (rest out : Bytes)
    → IsBase32 raw v
    → v < 32
    → 3 ≤ bits
    → bits < 8
    → m ≡ n * 2 ^ bits + acc % 2 ^ bits
    → Continues rest next
    → emit (pending_byte acc bits v) room (next ((acc * 2 ^ 5 + v) % 2 ^ 32) (bits + 5 - 8))
      ≡ some out
    → Decoded bits room n m (raw ∷ rest) out
unfolding emit
emit-Decoded acc bits v zero n m raw next rest out is_digit hv lb hb e later h = absurd (cc)
emit-Decoded acc bits v (suc room) n m raw next rest out is_digit hv lb hb e later h =
    let (tail, read, made) = >>=-some (next ((acc * 2 ^ 5 + v) % 2 ^ 32) (bits + 5 - 8) room) _ h in
    let made' : some (pending_byte acc bits v ∷ tail) ≡ some out = made in
    let same : pending_byte acc bits v ∷ tail ≡ out = cc in
    subst (Decoded bits (suc room) n m (raw ∷ rest)) same (
      Decoded-digit raw v is_digit refl (λ b. (omega arith, b)) (omega arith)
        (later ((acc * 2 ^ 5 + v) % 2 ^ 32) (bits + 5 - 8) room (n * 256 + pending_byte acc bits v)
          (m * 32 + v) tail (omega arith) (many_bits acc bits v n m hv lb hb e) read))

absorb-Decoded :
    (acc bits v room n m raw : ℕ) (next : ℕ → ℕ → ℕ → Option Bytes) (rest out : Bytes)
    → IsBase32 raw v
    → v < 32
    → bits < 8
    → m ≡ n * 2 ^ bits + acc % 2 ^ bits
    → Continues rest next
    → absorb 5 v acc bits room next ≡ some out
    → Decoded bits room n m (raw ∷ rest) out
unfolding absorb
absorb-Decoded acc bits v room n m raw next rest out is_digit hv hb e later h =
    elim (Bool-cases (leb 8 (bits + 5))) [
      | inl enough ↦
          emit-Decoded acc bits v room n m raw next rest out is_digit hv (ground arith) hb e later
            (rw enough at h)
      | inr few ↦
          let lb : bits < 3 = ground arith in
          Decoded-digit raw v is_digit refl (λ b. b) (omega arith)
            (later ((acc * 2 ^ 5 + v) % 2 ^ 32) (bits + 5) room n (m * 32 + v) out (omega arith)
              (few_bits acc bits v n m hv lb e) (rw few at h))
    ]

base32_loop-Decoded :
    (text : Bytes) → Continues text (λ acc bits room. base32_loop acc bits room text)
unfolding base32_loop
base32_loop-Decoded [] acc bits room n m out hb e h =
    Decoded-stop acc bits room n m [] out hb e (λ _. tt) h
base32_loop-Decoded (raw ∷ rest) acc bits room n m out hb e h = elim (Bool-cases (raw == b'=')) [
  | inl padding ↦
      Decoded-stop acc bits room n m (raw ∷ rest) out hb e (λ l. absurd (omega arith))
        (rw padding at h)
  | inr other ↦
      let h' = rw other at h in
      let (v, read, taken) = >>=-some (base32_digit raw) _ h' in
      let (is_digit, hv) = base32_digit_sound raw v read in
      absorb-Decoded acc bits v room n m raw _ rest out is_digit hv hb e (base32_loop-Decoded rest)
        taken
]

-- What is read from 32 characters is 20 bytes, of the number that the characters stand for.
pub from_base32_value :
    (text hash : Bytes)
    → length text ≡ 32
    → from_base32 text 20 ≡ some hash
    → (length hash ≡ 20)
      × All IsByte hash
      × ((digits : List ℕ) × Reads text digits × (number 256 0 hash ≡ number 32 0 digits))
unfolding from_base32
from_base32_value text hash l h =
    let d = base32_loop-Decoded text 0 0 20 0 0 hash (omega arith) refl h in
    let none_left : d.left ≡ 0 = omega (arith, d.amount, d.within, d.left_small) in
    let value : number 32 0 d.digits ≡ number 256 0 hash * 2 ^ 0 + d.final % 2 ^ 0 =
      subst (λ k. number 32 0 d.digits ≡ number 256 0 hash * 2 ^ k + d.final % 2 ^ k) none_left
        d.value in
    (
      length-from_base32 text hash 20 (unfold from_base32 in h),
      d.bytes,
      (d.digits, d.reads (omega (arith, d.amount, none_left)), omega arith),
    )
