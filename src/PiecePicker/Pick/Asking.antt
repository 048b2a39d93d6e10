-- ===== src/PiecePicker/Pick/Asking.antt =====
-- source/bt/piece_picker.cpp: PiecePicker::pick notes a request for every block that it makes pending.
use torfoil.Prelude.{
  ℕ, zero, suc, ◌+◌, ◌*◌, ◌^◌, ◌<◌, ◌≡◌, ◌≢◌, List, [], ◌∷◌, arith, ltb, length, get_or, none,
  Bool-cases, inl, inr,
}
use torfoil.Prelude.Maps.{find, put, find-put}
use torfoil.PiecePicker.{BlockState, free, pending, block_size, block_key, u32}
use torfoil.PiecePicker.Pick.{Taker, Taken, is_takable, take_blocks}
use torfoil.PiecePicker.Pick.TakeBlocks.{
  after_take, take_blocks-nil, take_blocks-stop, take_blocks-take, take_blocks-skip,
  take_blocks-keeps,
}

put-keeps : (k key at : ℕ) (m : List (ℕ × ℕ)) → find key m ≢ none → find key (put k at m) ≢ none
put-keeps k key at m here gone = here (ground (arith, find-put k key at m))

put_self : (k at : ℕ) (m : List (ℕ × ℕ)) → find k (put k at m) ≢ none
put_self k at m gone = ground (arith, find-put k k at m)

-- No request is lost in the loop.
pub take_blocks-asked_mono :
    (t : Taker) (b key : ℕ) (blocks : List BlockState) (s : Taken)
    → find key s.asked ≢ none
    → find key (take_blocks t b blocks s).1.asked ≢ none
take_blocks-asked_mono t b key blocks s here =
    take_blocks-keeps (λ s. find key s.asked ≢ none) t (b + length blocks)
      (λ c state s _ _ h. put-keeps _ key t.now_ms s.asked h) b blocks s (omega arith) here

-- The pending blocks of a piece, numbered from `b` on, have their requests.
abbrev pub AskedFrom : ℕ → ℕ → List BlockState → List (ℕ × ℕ) → Type 0
AskedFrom piece b blocks asked =
    (j c : ℕ)
    → c ≡ b + j
    → j < length blocks
    → get_or blocks j free ≡ pending
    → find (block_key piece (c * block_size)) asked ≢ none

AskedFrom-tail :
    (piece b : ℕ) (state : BlockState) (rest : List BlockState) (k at : ℕ) (asked : List (ℕ × ℕ))
    → AskedFrom piece b (state ∷ rest) asked
    → AskedFrom piece (b + 1) rest (put k at asked)
AskedFrom-tail piece b state rest k at asked h j c e lt is =
    put-keeps k _ at asked (h (suc j) c (omega arith) (omega arith) is)

AskedFrom-skip :
    (piece b : ℕ) (state : BlockState) (rest : List BlockState) (asked : List (ℕ × ℕ))
    → AskedFrom piece b (state ∷ rest) asked
    → AskedFrom piece (b + 1) rest asked
AskedFrom-skip piece b state rest asked h j c e lt is = h (suc j) c (omega arith) (omega arith) is

AskedFrom-cons :
    (piece b : ℕ) (state : BlockState) (rest : List BlockState) (asked : List (ℕ × ℕ))
    → (state ≡ pending → find (block_key piece (b * block_size)) asked ≢ none)
    → AskedFrom piece (b + 1) rest asked
    → AskedFrom piece b (state ∷ rest) asked
AskedFrom-cons piece b state rest asked head tail zero c e lt is =
    let same : c ≡ b = omega arith in rw same (head is)
AskedFrom-cons piece b state rest asked head tail (suc j) c e lt is =
    tail j c (omega arith) (omega arith) is

-- The loop keeps it, as long as the offsets fit in 32 bits.
pub take_blocks-AskedFrom :
    (t : Taker) (b : ℕ) (blocks : List BlockState) (s : Taken)
    → (b + length blocks) * block_size < 2 ^ 32
    → AskedFrom t.piece b blocks s.asked
    → AskedFrom t.piece b (take_blocks t b blocks s).0 (take_blocks t b blocks s).1.asked
take_blocks-AskedFrom t b [] s fits h = rw (take_blocks-nil t b s) h
take_blocks-AskedFrom t b (state ∷ rest) s fits h = elim (Bool-cases (ltb (length s.out) t.max)) [
  | inr full ↦ rw (take_blocks-stop t b state rest s full) h
  | inl more ↦ elim (Bool-cases (is_takable t.in_endgame state)) [
    | inl takable ↦
        let s' = after_take t b state s in
        let offset : u32 (b * block_size) ≡ b * block_size = omega arith in
        let here : find (block_key t.piece (b * block_size)) s'.asked ≢ none =
          rw offset (put_self (block_key t.piece (b * block_size)) t.now_ms s.asked) in
        rw (take_blocks-take t b state rest s more takable) (
          AskedFrom-cons t.piece b pending _ _
            (λ _. take_blocks-asked_mono t (b + 1) _ rest s' here)
            (take_blocks-AskedFrom t (b + 1) rest s' (omega arith)
              (AskedFrom-tail t.piece b state rest _ t.now_ms s.asked h)))
    | inr skip ↦ rw (take_blocks-skip t b state rest s more skip) (
        AskedFrom-cons t.piece b state _ _
          (λ is. take_blocks-asked_mono t (b + 1) _ rest s (h 0 b (omega arith) (omega arith) is))
          (take_blocks-AskedFrom t (b + 1) rest s (omega arith)
            (AskedFrom-skip t.piece b state rest s.asked h)))
  ]
]
