-- ===== src/Bitfield.antt =====
-- source/bt/piece_picker.cpp and include/bt/piece_picker.hpp: class Bitfield. The first piece is the
-- highest bit of the first byte. `uint32_t` sums are written with their wrap.
pub mod Bits
pub mod Valid
pub mod Writes
pub mod Laws
pub mod Message
use Prim.Native.Nat.{bit_and, bit_or}
use torfoil.Prelude.{
  ℕ, zero, suc, ◌+◌, ◌-◌, ◌*◌, ◌/◌, ◌%◌, ◌^◌, ◌<◌, Bool, true, false, not, ◌&&◌, Option, none, some,
  List, [], ◌∷◌, ltb, leb, ◌==◌, if◌then◌else◌, length, get_or, set, replicate, Bytes,
}

pub record Bitfield : Type 0 where
  pub bytes : Bytes
  pub bits : ℕ
  pub count : ℕ

abbrev pub bytes_for : ℕ → ℕ
bytes_for bits = (bits + 7) % 2 ^ 32 / 8

abbrev pub zeros : ℕ → Bytes
zeros n = replicate n 0

unfoldable pub resize : ℕ → Bitfield
resize bits = record { bytes = zeros (bytes_for bits); bits = bits; count = 0 }

unfoldable pub clear : Bitfield → Bitfield
clear b = record b { bytes = zeros (length b.bytes); count = 0 }

unfoldable pub get : Bitfield → ℕ → Bool
get b index =
    if leb b.bits index then false else get_or b.bytes (index / 8) 0 / 2 ^ (7 - index % 8) % 2 == 1

unfoldable pub mask_of : ℕ → ℕ
mask_of index = 2 ^ (7 - index % 8)

unfoldable pub same_bool : Bool → Bool → Bool
same_bool true b = b
same_bool false b = not b

unfoldable pub write_bit : Bitfield → ℕ → Bool → Bitfield
write_bit b index true = record b {
  bytes = set b.bytes (index / 8) (bit_or (get_or b.bytes (index / 8) 0) (mask_of index));
  count = (b.count + 1) % 2 ^ 32;
}
write_bit b index false = record b {
  bytes = set b.bytes (index / 8) (bit_and (get_or b.bytes (index / 8) 0) (255 - mask_of index));
  count = (b.count + 2 ^ 32 - 1) % 2 ^ 32;
}

unfoldable pub set_bit : Bitfield → ℕ → Bool → Bitfield
unfolding mask_of same_bool write_bit
set_bit b index value =
    if leb b.bits index
    then b
    else let was = not (bit_and (get_or b.bytes (index / 8) 0) (mask_of index) == 0) in
      if same_bool value was then b else write_bit b index value

-- `for (b = 0; b < 8; ++b) if (byte & (1 << b)) ++count_;`, from bit `b` on, `n` bits.
unfoldable pub ones_from : ℕ → ℕ → ℕ → ℕ
ones_from zero b byte = 0
ones_from (suc n) b byte = (if bit_and byte (2 ^ b) == 0 then 0 else 1) + ones_from n (b + 1) byte

unfoldable pub count_ones : Bytes → ℕ
count_ones [] = 0
count_ones (byte ∷ rest) = ones_from 8 0 byte + count_ones rest

-- The bits of the last byte that stand for no piece are zero.
unfoldable pub padding_is_zero : Bytes → ℕ → Bool
padding_is_zero bytes bits =
    let spare = (bytes_for bits * 8 + 2 ^ 32 - bits) % 2 ^ 32 in
    not (ltb 0 spare && not (bit_and (get_or bytes (bytes_for bits - 1) 0) (2 ^ spare - 1) == 0))

-- `none` where the source returns false; it leaves the bitfield as it was then.
unfoldable pub from_bytes : Bytes → ℕ → Option Bitfield
unfolding ones_from count_ones padding_is_zero
from_bytes bytes bits =
    if length bytes == bytes_for bits
    then (if padding_is_zero bytes bits
        then some (record { bytes = bytes; bits = bits; count = count_ones bytes })
        else none)
    else none

unfoldable pub empty : Bitfield → Bool
empty b = b.count == 0

unfoldable pub full : Bitfield → Bool
full b = ltb 0 b.bits && b.count == b.bits
