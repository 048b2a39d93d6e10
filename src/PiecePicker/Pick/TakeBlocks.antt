-- ===== src/PiecePicker/Pick/TakeBlocks.antt =====
-- source/bt/piece_picker.cpp: the loop of PiecePicker::pick over the blocks of one piece.
use torfoil.Prelude.{
  ℕ, ◌+◌, ◌^◌, ◌≤◌, ◌<◌, ◌≡◌, refl, true, false, List, [], ◌∷◌, ◌++◌, arith, ltb, if◌then◌else◌,
  length, Bool-cases, inl, inr,
}
use torfoil.Prelude.Maps.{put}
use torfoil.PiecePicker.{
  BlockState, free, pending, done, block_key, is_done, is_free, is_pending, u32,
}
use torfoil.PiecePicker.Counts.{count}
use torfoil.PiecePicker.Pick.{Taker, Taken, request, is_takable, take_block, take_blocks}

-- What a taken block does to the buffer and the requests.
abbrev pub after_take : Taker → ℕ → BlockState → Taken → Taken
after_take t b state s = record {
  out = s.out ++ request t b ∷ [];
  waiting = if is_free state then u32 (s.waiting + 1) else s.waiting;
  asked = put (block_key t.piece (request t b).offset) t.now_ms s.asked;
}

-- What every taken block keeps, the loop keeps.
pub take_blocks-keeps {ℓ} :
    (P : Taken → Type ℓ) (t : Taker) (n : ℕ)
    → ((b : ℕ) (state : BlockState) (s : Taken)
        → b < n
        → length s.out < t.max
        → P s
        → P (after_take t b state s))
    → (b : ℕ) (blocks : List BlockState) (s : Taken) → b + length blocks ≤ n
    → P s
    → P (take_blocks t b blocks s).1
unfolding take_blocks take_block
take_blocks-keeps P t n step b [] s room h = h
take_blocks-keeps P t n step b (state ∷ rest) s room h =
    elim (Bool-cases (ltb (length s.out) t.max)) [
      | inr full ↦ rw full h
      | inl more ↦ elim (Bool-cases (is_takable t.in_endgame state)) [
        | inl takable ↦
            rw (more, takable)
              (take_blocks-keeps P t n step (b + 1) rest (after_take t b state s) (omega arith)
                (step b state s (omega arith) (ground arith) h))
        | inr skip ↦ rw (more, skip) (take_blocks-keeps P t n step (b + 1) rest s (omega arith) h)
      ]
    ]

-- The blocks after the loop: as many, as many of them done, and the pending ones counted on.
pub take_blocks-counts :
    (t : Taker) (b : ℕ) (blocks : List BlockState) (s : Taken)
    → s.waiting + length blocks < 2 ^ 32
    → (length (take_blocks t b blocks s).0 ≡ length blocks)
      × (count is_done (take_blocks t b blocks s).0 ≡ count is_done blocks)
      × ((take_blocks t b blocks s).1.waiting + count is_pending blocks
          ≡ s.waiting + count is_pending (take_blocks t b blocks s).0)
unfolding take_blocks take_block
take_blocks-counts t b [] s h = (refl, refl, refl)
take_blocks-counts t b (done ∷ rest) s h = ground (arith, take_blocks-counts t (b + 1) rest s)
take_blocks-counts t b (free ∷ rest) s h =
    ground (arith, take_blocks-counts t (b + 1) rest (after_take t b free s))
take_blocks-counts t b (pending ∷ rest) s h = ground (
  arith,
  take_blocks-counts t (b + 1) rest s,
  take_blocks-counts t (b + 1) rest (after_take t b pending s),
)

-- The three ways in which a round of the loop goes.
module _ (t : Taker) (b : ℕ) (state : BlockState) (rest : List BlockState) (s : Taken) where
  pub take_blocks-stop :
      ltb (length s.out) t.max ≡ false → take_blocks t b (state ∷ rest) s ≡ (state ∷ rest, s)
  unfolding take_blocks
  take_blocks-stop full = rw full

  pub take_blocks-take :
      ltb (length s.out) t.max ≡ true
      → is_takable t.in_endgame state ≡ true
      → take_blocks t b (state ∷ rest) s ≡ (
        pending ∷ (take_blocks t (b + 1) rest (after_take t b state s)).0,
        (take_blocks t (b + 1) rest (after_take t b state s)).1,
      )
  unfolding take_blocks take_block
  take_blocks-take more takable = rw (more, takable)

  pub take_blocks-skip :
      ltb (length s.out) t.max ≡ true
      → is_takable t.in_endgame state ≡ false
      → take_blocks t b (state ∷ rest) s
        ≡ (state ∷ (take_blocks t (b + 1) rest s).0, (take_blocks t (b + 1) rest s).1)
  unfolding take_blocks take_block
  take_blocks-skip more skip = rw (more, skip)

pub take_blocks-nil : (t : Taker) (b : ℕ) (s : Taken) → take_blocks t b [] s ≡ ([], s)
unfolding take_blocks
take_blocks-nil t b s = refl
