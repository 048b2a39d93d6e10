-- ===== src/Tests/Bitfield.antt =====
-- source/bt/piece_picker.cpp, class Bitfield, at fixed inputs.
use torfoil.Prelude.{
  Bytes, ℕ, ◌+◌, ◌/◌, ◌<◌, ◌≡◌, refl, ◌↔◌, some, none, true, false, [], ◌∷◌, arith, length,
  if◌then◌else◌, leb, ◌==◌,
}
use torfoil.Bitfield.{Bitfield, get, set_bit, from_bytes, full}
use torfoil.Bitfield.Valid.{IsValid}
use torfoil.Bitfield.Writes.{set_bit-IsValid}
use torfoil.Bitfield.Laws.{get-set_bit, full_iff}
use torfoil.Bitfield.Message.{IsPadded, from_bytes_iff, from_bytes-IsValid}

abbrev spilled : Bytes
spilled = 0xc0 ∷ 0x20 ∷ []

abbrev ten : Bitfield
ten = record { bytes = 0xc0 ∷ 0x40 ∷ []; bits = 10; count = 3 }

from_bytes_run : from_bytes (0xc0 ∷ 0x40 ∷ []) 10 ≡ some ten
unfolding from_bytes
from_bytes_run = refl

from_bytes_padding : from_bytes spilled 10 ≡ none
unfolding from_bytes
from_bytes_padding = refl

ten-IsValid : IsValid ten
ten-IsValid =
    (from_bytes-IsValid (0xc0 ∷ 0x40 ∷ []) 10 (omega arith) (omega arith) from_bytes_run).2

set_run : set_bit ten 9 false ≡ record { bytes = 0xc0 ∷ 0 ∷ []; bits = 10; count = 2 }
unfolding set_bit
set_run = refl

set_bit-IsValid_example : IsValid (set_bit ten 9 false)
set_bit-IsValid_example = set_bit-IsValid 9 false ten-IsValid

get-set_bit_example :
    get (set_bit ten 3 true) 3
    ≡ (if leb 10 3 then get ten 3 else if 3 == 3 then true else get ten 3)
get-set_bit_example = get-set_bit ten 3 3 true ten-IsValid

full_iff_example : (full ten ≡ true) ↔ ((0 < 10) × ((i : ℕ) → i < 10 → get ten i ≡ true))
full_iff_example = full_iff ten ten-IsValid

from_bytes-IsValid_example : (ten.bytes ≡ 0xc0 ∷ 0x40 ∷ []) × (ten.bits ≡ 10) × IsValid ten
from_bytes-IsValid_example =
    from_bytes-IsValid (0xc0 ∷ 0x40 ∷ []) 10 (omega arith) (omega arith) from_bytes_run

from_bytes_iff_example :
    ((b : Bitfield) × (from_bytes spilled 10 ≡ some b))
    ↔ ((length spilled ≡ (10 + 7) / 8) × IsPadded spilled 10)
from_bytes_iff_example = from_bytes_iff spilled 10 (omega arith) (omega arith)
