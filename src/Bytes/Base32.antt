-- ===== src/Bytes/Base32.antt =====
-- source/util/bytes.cpp: `from_base32`. Its loop shifts the bits of each character into an accumulator
-- of 32 bits, and gives a byte as soon as eight bits are there. `key_from_base64` of
-- source/net/wg/wireguard.cpp has the same steps.
pub mod Value
use torfoil.Prelude.{
  ℕ, zero, suc, ◌+◌, ◌-◌, ◌*◌, ◌/◌, ◌%◌, ◌^◌, ◌≡◌, ◌&&◌, Option, none, some, [], ◌∷◌, arith, leb,
  ◌==◌, if◌then◌else◌, ◌>>=◌, >>=-some, length, Bytes, Bool-cases, inl, inr, ap,
}

-- `toupper` of the C locale.
pub to_upper : ℕ → ℕ
to_upper c = if leb b'a' c && leb c b'z' then c - 32 else c

pub base32_digit : ℕ → Option ℕ
unfolding to_upper
base32_digit raw =
    let c = to_upper raw in
    if leb b'A' c && leb c b'Z'
    then some (c - b'A')
    else if leb b'2' c && leb c b'7'
    then some (c - b'2' + 26)
    else none

-- A byte, if there is room for it.
unfoldable pub emit : ℕ → ℕ → (ℕ → Option Bytes) → Option Bytes
emit byte zero next = none
emit byte (suc left) next = do out ← next left; some (byte ∷ out)

-- A character of `width` bits; `next` goes on with the accumulator, its bits and the room.
unfoldable pub absorb : ℕ → ℕ → ℕ → ℕ → ℕ → (ℕ → ℕ → ℕ → Option Bytes) → Option Bytes
unfolding emit
absorb width v acc bits room next =
    let acc' = (acc * 2 ^ width + v) % 2 ^ 32 in
    let left = bits + width - 8 in
    if leb 8 (bits + width)
    then emit (acc' / 2 ^ left % 256) room (next acc' left)
    else next acc' (bits + width) room

-- The buffer has to be full at the end.
abbrev pub stop : ℕ → Option Bytes
stop room = if room == 0 then some [] else none

-- With room for `room` bytes more.
unfoldable pub base32_loop : ℕ → ℕ → ℕ → Bytes → Option Bytes
unfolding base32_digit absorb
base32_loop acc bits room [] = stop room
base32_loop acc bits room (raw ∷ rest) =
    let next = λ (a b r : ℕ). base32_loop a b r rest in
    let more = (do v ← base32_digit raw; absorb 5 v acc bits room next) in
    if raw == b'=' then stop room else more

unfoldable pub from_base32 : Bytes → ℕ → Option Bytes
unfolding base32_loop
from_base32 text out_len = base32_loop 0 0 out_len text

pub length-stop : (room : ℕ) (out : Bytes) → stop room ≡ some out → length out ≡ room
length-stop room out h = elim (Bool-cases (room == 0)) [
  | inl e ↦
      let h' : some [] ≡ some out = rw e at h in
      let same : [] ≡ out = cc in ground (arith, ap length same)
  | inr e ↦ let h' : none ≡ some out = rw e at h in cc
]

length-emit :
    (byte room : ℕ) (next : ℕ → Option Bytes) (out : Bytes)
    → ((r : ℕ) (o : Bytes) → next r ≡ some o → length o ≡ r)
    → emit byte room next ≡ some out
    → length out ≡ room
unfolding emit
length-emit byte zero next out later h = cc
length-emit byte (suc left) next out later h =
    let (tail, read, made) = >>=-some (next left) _ h in
    let made' : some (byte ∷ tail) ≡ some out = made in
    let same : byte ∷ tail ≡ out = cc in omega (arith, ap length same, later left tail read)

pub length-absorb :
    (width v acc bits room : ℕ) (next : ℕ → ℕ → ℕ → Option Bytes) (out : Bytes)
    → ((a b r : ℕ) (o : Bytes) → next a b r ≡ some o → length o ≡ r)
    → absorb width v acc bits room next ≡ some out
    → length out ≡ room
unfolding absorb
length-absorb width v acc bits room next out later h = elim (Bool-cases (leb 8 (bits + width))) [
  | inl e ↦ length-emit _ room _ out (λ r o. later _ _ r o) (rw e at h)
  | inr e ↦ later _ _ room out (rw e at h)
]

length-base32_loop :
    (acc bits room : ℕ) (text out : Bytes)
    → base32_loop acc bits room text ≡ some out
    → length out ≡ room
unfolding base32_loop
length-base32_loop acc bits room [] out h = length-stop room out h
length-base32_loop acc bits room (raw ∷ rest) out h = elim (Bool-cases (raw == b'=')) [
  | inl e ↦ length-stop room out (rw e at h)
  | inr e ↦
      let h' = rw e at h in
      let (v, _, taken) = >>=-some (base32_digit raw) _ h' in
      length-absorb 5 v acc bits room _ out (λ a b r o read. length-base32_loop a b r rest o read)
        taken
]

-- What is read has the length asked for.
pub length-from_base32 :
    (text out : Bytes) (out_len : ℕ) → from_base32 text out_len ≡ some out → length out ≡ out_len
unfolding from_base32
length-from_base32 text out out_len h = length-base32_loop 0 0 out_len text out h
