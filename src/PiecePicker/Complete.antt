-- ===== src/PiecePicker/Complete.antt =====
-- source/bt/piece_picker.cpp: when PiecePicker::on_block_received calls for the check of a piece.
use torfoil.Prelude.{
  sym, ◌∙◌, ℕ, ◌*◌, ◌/◌, ◌%◌, ◌<◌, ◌≡◌, ◌≢◌, ◌↔◌, refl, true, false, List, arith, leb, ◌==◌, ==_iff,
  length, get_or, set, some, ◌||◌, length-set, get_or-set_self, get_or-set_ne, ℕ_discrete,
}
use torfoil.Prelude.Maps.{find, erase}
use torfoil.Bitfield.{get}
use torfoil.MetaInfo.{piece_count}
use torfoil.PiecePicker.{
  BlockState, free, pending, done, PieceProgress, PiecePicker, block_size, block_key, is_done,
  received, receive_block, on_block_received,
}
use torfoil.PiecePicker.Counts.{count, count-all, count-full}
use torfoil.PiecePicker.Invariant.{Inv, IsProgress}
use torfoil.PiecePicker.Received.{received-IsProgress}

is_done-eq : (s : BlockState) → is_done s ≡ true → s ≡ done
is_done-eq free h = cc
is_done-eq pending h = cc
is_done-eq done h = refl

-- Every block but number `i` has been received.
abbrev pub OthersDone : PieceProgress → ℕ → Type 0
OthersDone prog i = (b : ℕ) → b < length prog.blocks → b ≢ i → get_or prog.blocks b free ≡ done

received_last :
    (p : PiecePicker) (piece i : ℕ) (prog : PieceProgress) (s : BlockState)
    → IsProgress p.meta p.have piece prog
    → i < length prog.blocks
    → get_or prog.blocks i free ≡ s
    → is_done s ≡ false
    → ((received prog i s).done == length (received prog i s).blocks) ≡ true ↔ OthersDone prog i
unfolding received
received_last p piece i prog s b lt is new =
    let after = received-IsProgress p.meta p.have piece i prog s b lt is new in
    let blocks = set prog.blocks i done in
    let size : length blocks ≡ length prog.blocks = length-set prog.blocks i done in
    (
      λ full b lt ne.
          let all : count is_done blocks ≡ length blocks =
            sym after.done_count ∙ (==_iff _ _).0 full in
          sym (get_or-set_ne prog.blocks i b done free (λ e. ne (sym e)))
          ∙ is_done-eq _ (count-all is_done blocks b all (omega arith)),
      λ others. (==_iff _ _).1 (after.done_count ∙ count-full is_done blocks (each others size)),
    )
  where
    each :
        OthersDone prog i
        → length (set prog.blocks i done) ≡ length prog.blocks
        → (b : ℕ) → b < length (set prog.blocks i done)
        → is_done (get_or (set prog.blocks i done) b free) ≡ true
    each others size b lt' = elim (ℕ_discrete b i) [
      | yes same ↦ rw (same, get_or-set_self prog.blocks i done free lt)
      | no other ↦ rw (
        get_or-set_ne prog.blocks i b done free (λ e. other (sym e)),
        others b (omega arith) other,
      )
    ]

receive_block-last :
    (p : PiecePicker) (piece i : ℕ) (prog : PieceProgress) (s : BlockState)
    → IsProgress p.meta p.have piece prog
    → i < length prog.blocks
    → get_or prog.blocks i free ≡ s
    → (asked : List (ℕ × ℕ)) → s ≢ done
    → ((receive_block (record p { pending = asked }) piece i prog s).1 ≡ true) ↔ OthersDone prog i
unfolding receive_block
receive_block-last p piece i prog done b lt is asked ne = absurd (ne refl)
receive_block-last p piece i prog free b lt is asked ne =
    received_last p piece i prog free b lt is refl
receive_block-last p piece i prog pending b lt is asked ne =
    received_last p piece i prog pending b lt is refl

-- The call that a wanted block comes down to.
on_block_received-wanted :
    (p : PiecePicker) (piece i : ℕ) (prog : PieceProgress)
    → IsProgress p.meta p.have piece prog
    → find piece p.progress ≡ some prog
    → i < length prog.blocks
    → on_block_received p piece (i * block_size)
      ≡ receive_block
          (record p { pending = erase (block_key piece (i * block_size)) p.pending })
          piece
          i
          prog
          (get_or prog.blocks i free)
unfolding on_block_received
on_block_received-wanted p piece i prog b e lt =
    let known : leb (piece_count p.meta) piece || get p.have piece ≡ false =
      ground (arith, b.known, b.missing) in
    let aligned : (i * block_size % block_size == 0) ≡ true = (==_iff _ 0).1 (omega arith) in
    let index : i * block_size / block_size ≡ i = omega arith in
    let inside : leb (length prog.blocks) i ≡ false = ground arith in
    rw (known, aligned, e, index, inside)

-- A block of a piece begun that had not arrived yet calls for the check of the piece exactly when all
-- the other blocks of the piece had arrived.
pub on_block_received_iff :
    (p : PiecePicker) (piece i : ℕ) (prog : PieceProgress)
    → Inv p
    → find piece p.progress ≡ some prog
    → i < length prog.blocks
    → get_or prog.blocks i free ≢ done
    → ((on_block_received p piece (i * block_size)).1 ≡ true) ↔ OthersDone prog i
on_block_received_iff p piece i prog v e lt ne =
    let b = v.begun piece prog e in
    rw (on_block_received-wanted p piece i prog b e lt)
      (receive_block-last p piece i prog _ b lt refl _ ne)
