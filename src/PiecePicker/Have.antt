-- ===== src/PiecePicker/Have.antt =====
-- source/bt/piece_picker.cpp: PiecePicker::set_have keeps the invariant.
use torfoil.Prelude.{
  ◌∙◌, ℕ, ◌+◌, ◌%◌, ◌^◌, ◌≤◌, ◌<◌, ◌≡◌, ◌≢◌, true, false, arith, leb, if◌then◌else◌, Bool-cases,
  inl, inr, ◌||◌,
}
use torfoil.Prelude.Maps.{erase, Holds-erase}
use torfoil.Prelude.Sums.{sum_below_bump, sum_below_mono}
use torfoil.Bitfield.{Bitfield, get, set_bit}
use torfoil.Bitfield.Valid.{IsValid}
use torfoil.Bitfield.Writes.{set_bit-IsValid, bits-set_bit}
use torfoil.Bitfield.Laws.{get-set_bit}
use torfoil.MetaInfo.{MetaInfo, piece_count, size_of_piece}
use torfoil.MetaInfo.Pieces.{IsConsistent, sum-size_of_piece}
use torfoil.PiecePicker.{PieceProgress, PiecePicker, set_have}
use torfoil.PiecePicker.Invariant.{Inv, IsProgress, held}

held-le : (meta : MetaInfo) (have : Bitfield) → IsConsistent meta → held meta have ≤ meta.total_size
held-le meta have c = omega (
  arith,
  sum-size_of_piece meta c,
  sum_below_mono (piece_count meta) (λ i. if get have i then size_of_piece meta i else 0)
      (size_of_piece meta) (λ i _. ground arith),
)

held-set_bit :
    (meta : MetaInfo) (have : Bitfield) (piece : ℕ)
    → IsValid have
    → have.bits ≡ piece_count meta
    → piece < piece_count meta
    → get have piece ≡ false
    → held meta (set_bit have piece true) ≡ held meta have + size_of_piece meta piece
held-set_bit meta have piece v bits lt missing =
    sum_below_bump (piece_count meta) piece (size_of_piece meta piece)
      (λ i. if get have i then size_of_piece meta i else 0) _ lt
      (ground (arith, get-set_bit have piece piece true v))
      (λ j ne. ground (arith, get-set_bit have piece j true v))

pub set_have-new :
    (p : PiecePicker) (piece : ℕ)
    → piece < piece_count p.meta
    → get p.have piece ≡ false
    → set_have p piece ≡ record p {
      have = set_bit p.have piece true;
      bytes_done = (p.bytes_done + size_of_piece p.meta piece) % 2 ^ 64;
      progress = erase piece p.progress;
    }
unfolding set_have
set_have-new p piece lt missing = ground arith

IsProgress-set_bit :
    (p : PiecePicker) (piece k : ℕ) (prog : PieceProgress)
    → Inv p
    → k ≢ piece
    → IsProgress p.meta p.have k prog
    → IsProgress p.meta (set_bit p.have piece true) k prog
IsProgress-set_bit p piece k prog v ne b = record {
  known = b.known;
  missing = ground (arith, get-set_bit p.have piece k true v.have_valid, b.missing);
  size = b.size;
  done_count = b.done_count;
  pending_count = b.pending_count;
}

set_have_new-Inv :
    (p : PiecePicker) (piece : ℕ)
    → Inv p
    → piece < piece_count p.meta
    → get p.have piece ≡ false
    → Inv (set_have p piece)
set_have_new-Inv p piece v lt missing =
    let grown = held-set_bit p.meta p.have piece v.have_valid v.have_bits lt missing in
    let most = held-le p.meta (set_bit p.have piece true) v.consistent in
    rw (set_have-new p piece lt missing) (record {
      consistent = v.consistent;
      have_valid = set_bit-IsValid piece true v.have_valid;
      have_bits = bits-set_bit p.have piece true ∙ v.have_bits;
      counters = v.counters;
      begun =
          Holds-erase _ piece p.progress
            (λ k w ne e. IsProgress-set_bit p piece k w v ne (v.begun k w e));
      asked = Holds-erase _ piece p.progress (λ k w ne e. v.asked k w e);
      bytes = omega (arith, v.bytes, grown, most, v.consistent.total_fits);
    })

pub set_have-skip :
    (p : PiecePicker) (piece : ℕ)
    → leb (piece_count p.meta) piece || get p.have piece ≡ true
    → set_have p piece ≡ p
unfolding set_have
set_have-skip p piece skip = rw skip

-- Marking a piece as there keeps the invariant: its size is added to the bytes done once, whatever
-- was known of the piece, and its blocks are forgotten.
pub set_have-Inv : (p : PiecePicker) (piece : ℕ) → Inv p → Inv (set_have p piece)
set_have-Inv p piece v = elim (Bool-cases (leb (piece_count p.meta) piece || get p.have piece)) [
  | inl skip ↦ rw (set_have-skip p piece skip) v
  | inr new ↦ set_have_new-Inv p piece v (ground arith) (ground arith)
]
