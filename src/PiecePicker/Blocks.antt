-- ===== src/PiecePicker/Blocks.antt =====
-- source/bt/piece_picker.cpp: one block of a piece begun changes its state.
use torfoil.Prelude.{
  ◌∙◌, ap, subst, ℕ, ◌+◌, ◌*◌, ◌/◌, ◌^◌, ◌<◌, ◌≡◌, ◌≢◌, false, List, arith, ltb, if◌then◌else◌,
  length, get_or, set, some, none, Bool-cases, Option-cases, inl, inr, ◌&&◌, length-set,
  get_or-set_self, get_or-set_ne, ℕ_discrete,
}
use torfoil.Prelude.Maps.{find, put, erase, find-erase, Holds, Holds-put}
use torfoil.Bitfield.{Bitfield}
use torfoil.MetaInfo.{MetaInfo}
use torfoil.MetaInfo.Pieces.{IsConsistent, piece_count-length}
use torfoil.PiecePicker.{
  BlockState, free, pending, done, PieceProgress, PiecePicker, block_size, block_key, is_done,
  is_pending, drop_pending, release_block, release_in,
}
use torfoil.PiecePicker.Counts.{count, count-set, block_bounds}
use torfoil.PiecePicker.Invariant.{Inv, IsProgress, AskedBy, IsAsked}

-- An operation on blocks and requests keeps the invariant if it does so for each piece begun.
pub Inv-blocks :
    (p : PiecePicker) (progress : List (ℕ × PieceProgress)) (asked : List (ℕ × ℕ))
    → Inv p
    → Holds (IsProgress p.meta p.have) progress
    → Holds (IsAsked asked) progress
    → Inv (record p { progress = progress; pending = asked })
Inv-blocks p progress asked v begun is_asked = record {
  consistent = v.consistent;
  have_valid = v.have_valid;
  have_bits = v.have_bits;
  counters = v.counters;
  begun = begun;
  asked = is_asked;
  bytes = v.bytes;
}

-- Two blocks have the same key only if they are the same.
pub block_key-eq :
    (k piece a b : ℕ)
    → a < 2 ^ 32
    → b < 2 ^ 32
    → block_key k a ≡ block_key piece b
    → (k ≡ piece) × (a ≡ b)
block_key-eq k piece a b ha hb e = (omega arith, omega arith)

pub offset_fits :
    (meta : MetaInfo) (have : Bitfield) (k : ℕ) (w : PieceProgress) (b : ℕ)
    → IsConsistent meta
    → IsProgress meta have k w
    → b < length w.blocks
    → b * block_size < 2 ^ 28
offset_fits meta have k w b c begun lt =
    let bounds = block_bounds meta k b c begun.known (omega (arith, begun.size)) in
    omega (arith, bounds.0, bounds.2)

pub count_done-set :
    (blocks : List BlockState) (i : ℕ) (s : BlockState)
    → i < length blocks
    → get_or blocks i free ≡ s
    → is_done s ≡ false
    → count is_done (set blocks i done) ≡ count is_done blocks + 1
count_done-set blocks i s lt e h = ground (arith, count-set is_done blocks i done lt)

pub count_pending-set :
    (blocks : List BlockState) (i : ℕ) (s new : BlockState)
    → i < length blocks
    → get_or blocks i free ≡ s
    → is_pending new ≡ false
    → count is_pending (set blocks i new)
      ≡ (if is_pending s then drop_pending (count is_pending blocks) else count is_pending blocks)
count_pending-set blocks i s new lt e h = ground (arith, count-set is_pending blocks i new lt)

-- A pending block that is let go is free, and counted no more.
pub release_block-IsProgress :
    (meta : MetaInfo) (have : Bitfield) (piece i : ℕ) (prog : PieceProgress)
    → IsProgress meta have piece prog
    → IsProgress meta have piece (release_block prog i)
unfolding release_block
release_block-IsProgress meta have piece i prog b =
    elim (Bool-cases (ltb i (length prog.blocks) && is_pending (get_or prog.blocks i free))) [
      | inl hit ↦ rw hit (record {
        known = b.known;
        missing = b.missing;
        size = length-set prog.blocks i free ∙ b.size;
        done_count = ground (arith, count-set is_done prog.blocks i free, b.done_count);
        pending_count = ground (
          arith,
          count_pending-set prog.blocks i (get_or prog.blocks i free) free,
          b.pending_count,
        );
      })
      | inr miss ↦ rw miss b
    ]

-- A block that is pending afterwards is another one, and was pending before.
release_block-pending :
    (i b : ℕ) (prog : PieceProgress)
    → b < length (release_block prog i).blocks
    → get_or (release_block prog i).blocks b free ≡ pending
    → (b ≢ i) × (b < length prog.blocks) × (get_or prog.blocks b free ≡ pending)
unfolding release_block
release_block-pending i b prog lt is =
    elim (Bool-cases (ltb i (length prog.blocks) && is_pending (get_or prog.blocks i free))) [
      | inl hit ↦ elim (ℕ_discrete b i) [
        | yes same ↦ absurd (ground (arith, get_or-set_self prog.blocks i free free))
        | no other ↦ (
          other,
          ground (arith, length-set prog.blocks i free),
          ground (arith, get_or-set_ne prog.blocks i b free free),
        )
      ]
      | inr miss ↦
          let was : get_or prog.blocks b free ≡ pending = ground arith in
          let inside : b < length prog.blocks = ground arith in
          let here = λ (same : b ≡ i). subst (λ j. get_or prog.blocks j free ≡ pending) same was in
          (λ same. ground (arith, here same), inside, was)
    ]

release_in-some :
    (m : List (ℕ × PieceProgress)) (piece offset : ℕ) (prog : PieceProgress)
    → find piece m ≡ some prog
    → release_in m piece offset ≡ put piece (release_block prog (offset / block_size)) m
unfolding release_in
release_in-some m piece offset prog e = rw (e, release_in)

release_in-none :
    (m : List (ℕ × PieceProgress)) (piece offset : ℕ)
    → find piece m ≡ none
    → release_in m piece offset ≡ m
unfolding release_in
release_in-none m piece offset e = rw (e, release_in)

-- Letting a block go keeps what is known of the pieces begun.
pub release_in-begun :
    (meta : MetaInfo) (have : Bitfield) (m : List (ℕ × PieceProgress)) (piece offset : ℕ)
    → Holds (IsProgress meta have) m
    → Holds (IsProgress meta have) (release_in m piece offset)
release_in-begun meta have m piece offset h = elim (Option-cases (find piece m)) [
  | inl e ↦ rw (release_in-none m piece offset e) h
  | inr (prog, e) ↦ rw (release_in-some m piece offset prog e) (
      Holds-put (IsProgress meta have) piece _ m
        (release_block-IsProgress meta have piece (offset / block_size) prog (h piece prog e))
        (λ j w ne e. h j w e))
]

-- Letting a block go takes its key, and no other, out of the keys that are needed.
pub release_in-AskedBy :
    (meta : MetaInfo) (have : Bitfield) (m : List (ℕ × PieceProgress)) (piece offset : ℕ)
    (A B : ℕ → Type 0)
    → IsConsistent meta
    → Holds (IsProgress meta have) m
    → offset < 2 ^ 32
    → ((key : ℕ) → key < 2 ^ 64 → key ≢ block_key piece offset → A key → B key)
    → Holds (AskedBy A) m
    → Holds (AskedBy B) (release_in m piece offset)
release_in-AskedBy meta have m piece offset A B c begun fits narrow asked =
    elim (Option-cases (find piece m)) [
      | inl e ↦
          rw (release_in-none m piece offset e)
            (λ k w found. others k w (λ same. ground (arith, ap (λ (i : ℕ). find i m) same)) found)
      | inr (prog, e) ↦
          rw (release_in-some m piece offset prog e)
            (Holds-put (AskedBy B) piece _ m (this prog e) others)
    ]
  where
    others : (k : ℕ) (w : PieceProgress) → k ≢ piece → find k m ≡ some w → AskedBy B k w
    others k w ne e b lt is =
        let small = offset_fits meta have k w b c (begun k w e) lt in
        narrow (block_key k (b * block_size))
          (omega (arith, (begun k w e).known, piece_count-length c, c.few))
          (λ same. ne (block_key-eq k piece (b * block_size) offset (omega arith) fits same).0)
          (asked k w e b lt is)

    this :
        (prog : PieceProgress)
        → find piece m ≡ some prog
        → AskedBy B piece (release_block prog (offset / block_size))
    this prog e b lt is =
        let (other, lt', is') = release_block-pending (offset / block_size) b prog lt is in
        let small = offset_fits meta have piece prog b c (begun piece prog e) lt' in
        narrow (block_key piece (b * block_size))
          (omega (arith, (begun piece prog e).known, piece_count-length c, c.few))
          (λ same. other (
            omega (
              arith,
              (block_key-eq piece piece (b * block_size) offset (omega arith) fits same).1,
            )))
          (asked piece prog e b lt' is')

-- Any other key is still there.
pub kept-erase :
    (key gone : ℕ) (asked : List (ℕ × ℕ))
    → key ≢ gone
    → find key asked ≢ none
    → find key (erase gone asked) ≢ none
kept-erase key gone asked ne here = λ e. here (ground (arith, find-erase gone key asked))
