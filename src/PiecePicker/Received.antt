-- ===== src/PiecePicker/Received.antt =====
-- source/bt/piece_picker.cpp: PiecePicker::on_block_received.
use torfoil.Prelude.{
  sym, ◌∙◌, ap, ℕ, ◌*◌, ◌/◌, ◌%◌, ◌^◌, ◌<◌, ◌≡◌, ◌≢◌, refl, Bool, false, arith, leb, ◌==◌, length,
  get_or, set, some, Bool-cases, Option-cases, inl, inr, ◌||◌, length-set, get_or-set_self,
  get_or-set_ne, ℕ_discrete,
}
use torfoil.Prelude.Maps.{find, put, erase, Holds-put}
use torfoil.Bitfield.{Bitfield, get}
use torfoil.MetaInfo.{MetaInfo, piece_count}
use torfoil.PiecePicker.{
  received, BlockState, free, pending, done, PieceProgress, PiecePicker, block_size, block_key,
  is_done, receive_block, on_block_received,
}
use torfoil.PiecePicker.Counts.{count-le, blocks_in_piece-lt}
use torfoil.PiecePicker.Invariant.{Inv, IsProgress, IsAsked}
use torfoil.PiecePicker.Blocks.{
  kept-erase, Inv-blocks, count_done-set, count_pending-set, block_key-eq, offset_fits,
}

pub received-IsProgress :
    (meta : MetaInfo) (have : Bitfield) (piece i : ℕ) (prog : PieceProgress) (s : BlockState)
    → IsProgress meta have piece prog
    → i < length prog.blocks
    → get_or prog.blocks i free ≡ s
    → is_done s ≡ false
    → IsProgress meta have piece (received prog i s)
unfolding received
received-IsProgress meta have piece i prog s b lt e new =
    let counted = count_done-set prog.blocks i s lt e new in
    record {
      known = b.known;
      missing = b.missing;
      size = length-set prog.blocks i done ∙ b.size;
      done_count = omega (
        arith,
        b.done_count,
        counted,
        count-le is_done prog.blocks,
        b.size,
        blocks_in_piece-lt meta piece,
      );
      pending_count =
          ground (arith, count_pending-set prog.blocks i s done lt e refl, b.pending_count);
    }

-- Beside the block received, what is pending was so before.
received-AskedBy :
    (p : PiecePicker) (piece offset : ℕ) (prog : PieceProgress) (s : BlockState)
    → Inv p
    → find piece p.progress ≡ some prog
    → offset < 2 ^ 32
    → offset / block_size < length prog.blocks
    → IsAsked
        (erase (block_key piece offset) p.pending)
        piece
        (received prog (offset / block_size) s)
unfolding received
received-AskedBy p piece offset prog s v e fits lt b lt' is =
    elim (ℕ_discrete (offset / block_size) b) [
      | yes same ↦ absurd (
          ground (
            arith,
            get_or-set_self prog.blocks (offset / block_size) done free lt,
            ap (λ (j : ℕ). get_or (set prog.blocks (offset / block_size) done) j free) same,
          ))
      | no other ↦
          let lt'' : b < length prog.blocks =
            omega (arith, length-set prog.blocks (offset / block_size) done) in
          let was : get_or prog.blocks b free ≡ pending =
            sym (get_or-set_ne prog.blocks (offset / block_size) b done free other) ∙ is in
          let small =
            offset_fits p.meta p.have piece prog b v.consistent (v.begun piece prog e) lt'' in
          kept-erase _ _ p.pending
            (λ same. other (
              omega (
                arith,
                (block_key-eq piece piece (b * block_size) offset (omega arith) fits same).1,
              )))
            (v.asked piece prog e b lt'' was)
    ]

-- The requests of the pieces that the block is not of.
other_pieces-AskedBy :
    (p : PiecePicker) (piece offset k : ℕ) (w : PieceProgress)
    → Inv p
    → offset < 2 ^ 32
    → k ≢ piece
    → find k p.progress ≡ some w
    → IsAsked (erase (block_key piece offset) p.pending) k w
other_pieces-AskedBy p piece offset k w v fits ne e b lt is =
    let small = offset_fits p.meta p.have k w b v.consistent (v.begun k w e) lt in
    kept-erase _ _ p.pending
      (λ same. ne (block_key-eq k piece (b * block_size) offset (omega arith) fits same).0)
      (v.asked k w e b lt is)

store_received-Inv :
    (p : PiecePicker) (piece offset : ℕ) (prog : PieceProgress) (s : BlockState)
    → Inv p
    → find piece p.progress ≡ some prog
    → offset < 2 ^ 32
    → offset / block_size < length prog.blocks
    → get_or prog.blocks (offset / block_size) free ≡ s
    → is_done s ≡ false
    → Inv (record p {
      progress = put piece (received prog (offset / block_size) s) p.progress;
      pending = erase (block_key piece offset) p.pending;
    })
store_received-Inv p piece offset prog s v e fits lt is new =
    Inv-blocks p _ _ v
      (Holds-put _ piece _ p.progress
        (received-IsProgress p.meta p.have piece (offset / block_size) prog s (v.begun piece prog e)
          lt is new)
        (λ k w _ found. v.begun k w found))
      (Holds-put _ piece _ p.progress (received-AskedBy p piece offset prog s v e fits lt)
        (λ k w ne found. other_pieces-AskedBy p piece offset k w v fits ne found))

-- A block received twice: only its request goes.
received_again-Inv :
    (p : PiecePicker) (piece offset : ℕ) (prog : PieceProgress)
    → Inv p
    → find piece p.progress ≡ some prog
    → offset < 2 ^ 32
    → get_or prog.blocks (offset / block_size) free ≡ done
    → Inv (record p { pending = erase (block_key piece offset) p.pending })
received_again-Inv p piece offset prog v e fits is =
    Inv-blocks p p.progress _ v v.begun λ k w found. elim (ℕ_discrete k piece) [
      | yes same ↦
          let this : w ≡ prog = ground (arith, ap (λ (i : ℕ). find i p.progress) same) in
          rw (same, this)
            (λ b lt was.
              let small =
                offset_fits p.meta p.have piece prog b v.consistent (v.begun piece prog e) lt in
              kept-erase _ _ p.pending
                (λ eq.
                  let at : b ≡ offset / block_size = omega (
                    arith,
                    (block_key-eq piece piece (b * block_size) offset (omega arith) fits eq).1,
                  ) in
                  ground (arith, ap (λ (j : ℕ). get_or prog.blocks j free) at))
                (v.asked piece prog e b lt was))
      | no other ↦ other_pieces-AskedBy p piece offset k w v fits other found
    ]

-- The cases of `on_block_received`: the block is not wanted, or it belongs to a piece begun.
on_block_received_cases {ℓ} :
    (P : PiecePicker × Bool → Type ℓ) (p : PiecePicker) (piece offset : ℕ)
    → P (p, false)
    → ((prog : PieceProgress)
        → find piece p.progress ≡ some prog
        → offset % block_size ≡ 0
        → offset / block_size < length prog.blocks
        → P (
            receive_block
              (record p { pending = erase (block_key piece offset) p.pending })
              piece
              (offset / block_size)
              prog
              (get_or prog.blocks (offset / block_size) free)))
    → P (on_block_received p piece offset)
unfolding on_block_received
on_block_received_cases P p piece offset unwanted wanted =
    elim (Bool-cases (leb (piece_count p.meta) piece || get p.have piece)) [
      | inl e ↦ rw e unwanted
      | inr e ↦ elim (Bool-cases (offset % block_size == 0)) [
        | inr unaligned ↦ rw (e, unaligned) unwanted
        | inl aligned ↦ elim (Option-cases (find piece p.progress)) [
          | inl missing ↦ rw (e, aligned, missing) unwanted
          | inr (prog, found) ↦ elim (Bool-cases (leb (length prog.blocks) (offset / block_size))) [
            | inl out ↦ rw (e, aligned, found, out) unwanted
            | inr inside ↦
                rw (e, aligned, found, inside) (wanted prog found (ground arith) (ground arith))
          ]
        ]
      ]
    ]

receive_block-Inv :
    (p : PiecePicker) (piece offset : ℕ) (prog : PieceProgress) (s : BlockState)
    → Inv p
    → find piece p.progress ≡ some prog
    → offset < 2 ^ 32
    → offset / block_size < length prog.blocks
    → get_or prog.blocks (offset / block_size) free ≡ s
    → Inv
        (receive_block
          (record p { pending = erase (block_key piece offset) p.pending })
          piece
          (offset / block_size)
          prog
          s).0
unfolding receive_block
receive_block-Inv p piece offset prog done v e fits lt is =
    received_again-Inv p piece offset prog v e fits is
receive_block-Inv p piece offset prog free v e fits lt is =
    store_received-Inv p piece offset prog free v e fits lt is refl
receive_block-Inv p piece offset prog pending v e fits lt is =
    store_received-Inv p piece offset prog pending v e fits lt is refl

-- A block that arrives keeps the invariant, wanted or not, at any offset.
pub on_block_received-Inv :
    (p : PiecePicker) (piece offset : ℕ)
    → Inv p
    → offset < 2 ^ 32
    → Inv (on_block_received p piece offset).0
on_block_received-Inv p piece offset v fits =
    on_block_received_cases (λ r. Inv r.0) p piece offset v
      (λ prog e aligned lt. receive_block-Inv p piece offset prog _ v e fits lt refl)
