-- ===== src/PiecePicker/Invariant.antt =====
-- source/bt/piece_picker.cpp: the invariant of class PiecePicker.
use torfoil.Prelude.{
  sym, ℕ, ◌*◌, ◌<◌, ◌≡◌, ◌≢◌, false, List, arith, if◌then◌else◌, length, get_or, some, none,
  length-replicate,
}
use torfoil.Prelude.Maps.{find, Holds}
use torfoil.Prelude.Sums.{sum_below, sum_below-zero}
use torfoil.Bitfield
use torfoil.Bitfield.{Bitfield, get}
use torfoil.Bitfield.Valid.{resize-IsValid, bits-resize, get-resize}
use torfoil.Bitfield.Valid
use torfoil.MetaInfo.{MetaInfo, piece_count, size_of_piece}
use torfoil.MetaInfo.Pieces.{IsConsistent, piece_count-length}
use torfoil.PiecePicker.{
  free, pending, PieceProgress, PiecePicker, block_size, block_key, is_done, is_pending, init,
  blocks_in_piece, fresh, progress_for,
}
use torfoil.PiecePicker.Counts.{count}

-- A piece begun: it is a piece of the torrent that is still missing, it has its blocks, and its two
-- counters are what they count.
pub record IsProgress (meta : MetaInfo) (have : Bitfield) (piece : ℕ) (prog : PieceProgress)
    : Type 0 where
  pub known : piece < piece_count meta
  pub missing : get have piece ≡ false
  pub size : length prog.blocks ≡ blocks_in_piece meta piece
  pub done_count : prog.done ≡ count is_done prog.blocks
  pub pending_count : prog.pending ≡ count is_pending prog.blocks

-- The key of every pending block is in a set of keys.
abbrev pub AskedBy : (ℕ → Type 0) → ℕ → PieceProgress → Type 0
AskedBy A piece prog =
    (b : ℕ)
    → b < length prog.blocks
    → get_or prog.blocks b free ≡ pending
    → A (block_key piece (b * block_size))

-- Every pending block has its request among those that can expire.
abbrev pub IsAsked : List (ℕ × ℕ) → ℕ → PieceProgress → Type 0
IsAsked asked = AskedBy (λ key. find key asked ≢ none)

-- The bytes of the pieces that are there.
abbrev pub held : MetaInfo → Bitfield → ℕ
held meta have = sum_below (piece_count meta) (λ i. if get have i then size_of_piece meta i else 0)

pub record Inv (p : PiecePicker) : Type 0 where
  pub consistent : IsConsistent p.meta
  pub have_valid : Valid.IsValid p.have
  pub have_bits : p.have.bits ≡ piece_count p.meta
  pub counters : length p.availability ≡ piece_count p.meta
  pub begun : Holds (IsProgress p.meta p.have) p.progress
  pub asked : Holds (IsAsked p.pending) p.progress
  pub bytes : p.bytes_done ≡ held p.meta p.have

held-resize : (meta : MetaInfo) (n : ℕ) → held meta (Bitfield.resize n) ≡ 0
held-resize meta n = sum_below-zero (piece_count meta) _ (λ i _. rw (get-resize n i))

-- A new picker satisfies it: nothing is there and nothing is asked for.
pub init-Inv : (meta : MetaInfo) → IsConsistent meta → Inv (init meta)
unfolding init find
init-Inv meta c = record {
  consistent = c;
  have_valid = resize-IsValid (piece_count meta) (omega (arith, piece_count-length c, c.few));
  have_bits = bits-resize (piece_count meta);
  counters = length-replicate {A = ℕ} (piece_count meta) 0;
  begun = λ k v e. cc;
  asked = λ k v e. cc;
  bytes = sym (held-resize meta (piece_count meta));
}

pub progress_for-some :
    (p : PiecePicker) (piece : ℕ) (prog : PieceProgress)
    → find piece p.progress ≡ some prog
    → progress_for p piece ≡ prog
unfolding progress_for
progress_for-some p piece prog e = rw (e, progress_for)

pub progress_for-none :
    (p : PiecePicker) (piece : ℕ)
    → find piece p.progress ≡ none
    → progress_for p piece ≡ fresh p.meta piece
unfolding progress_for
progress_for-none p piece e = rw (e, progress_for)
