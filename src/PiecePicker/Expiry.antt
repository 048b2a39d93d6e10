-- ===== src/PiecePicker/Expiry.antt =====
-- source/bt/piece_picker.cpp: requests that are given up or time out keep the invariant of
-- class PiecePicker.
use torfoil.Prelude.{
  ℕ, ◌+◌, ◌-◌, ◌/◌, ◌%◌, ◌^◌, ◌<◌, ◌≡◌, ◌≢◌, List, [], ◌∷◌, arith, ltb, none, Bool-cases, inl, inr,
  ◌⊎◌, ℕ_discrete,
}
use torfoil.Prelude.Maps.{find, Holds}
use torfoil.Bitfield.{Bitfield}
use torfoil.MetaInfo.{MetaInfo}
use torfoil.MetaInfo.Pieces.{IsConsistent}
use torfoil.PiecePicker.{
  PieceProgress, PiecePicker, block_key, fresh, u32, release_in, on_request_dropped, Expired,
  expire_from, expire_requests,
}
use torfoil.PiecePicker.Invariant.{Inv, IsProgress, AskedBy}
use torfoil.PiecePicker.Blocks.{kept-erase, Inv-blocks, release_in-begun, release_in-AskedBy}

-- A request given up keeps the invariant.
pub on_request_dropped-Inv :
    (p : PiecePicker) (piece offset : ℕ)
    → Inv p
    → offset < 2 ^ 32
    → Inv (on_request_dropped p piece offset)
unfolding on_request_dropped
on_request_dropped-Inv p piece offset v fits =
    Inv-blocks p _ _ v (release_in-begun p.meta p.have p.progress piece offset v.begun) (
      release_in-AskedBy p.meta p.have p.progress piece offset _ _ v.consistent v.begun fits
        (λ key _ ne here. kept-erase key _ p.pending ne here) v.asked)

-- The keys that `expire_from` has decided to keep, beside those that it has yet to look at.
abbrev OrIn : (ℕ → Type 0) → List (ℕ × ℕ) → ℕ → Type 0
OrIn E rest key = E key ⊎ (find key rest ≢ none)

-- A key that is not the one let go is still to be looked at.
narrow_late :
    (E : ℕ → Type 0) (rest : List (ℕ × ℕ)) (gone at key : ℕ)
    → key < 2 ^ 64
    → key ≢ block_key (u32 (gone / 2 ^ 32)) (u32 gone)
    → OrIn E ((gone, at) ∷ rest) key
    → OrIn E rest key
unfolding find
narrow_late E rest gone at key fits ne (inl e) = inl e
narrow_late E rest gone at key fits ne (inr here) = elim (ℕ_discrete gone key) [
  | yes same ↦ absurd (ne (omega arith))
  | no other ↦ inr (λ e. here (ground arith))
]

-- A key that is kept need not be looked at again.
abbrev OrKey : (ℕ → Type 0) → ℕ → ℕ → Type 0
OrKey E kept key = E key ⊎ (kept ≡ key)

widen_kept :
    (E : ℕ → Type 0) (rest : List (ℕ × ℕ)) (kept at key : ℕ)
    → OrIn E ((kept, at) ∷ rest) key
    → OrIn (OrKey E kept) rest key
unfolding find
widen_kept E rest kept at key (inl e) = inl (inl e)
widen_kept E rest kept at key (inr here) = elim (ℕ_discrete kept key) [
  | yes same ↦ inl (inr same)
  | no other ↦ inr (λ e. here (ground arith))
]

back_kept :
    (E : ℕ → Type 0) (rest : List (ℕ × ℕ)) (kept at key : ℕ)
    → OrIn (OrKey E kept) rest key
    → OrIn E ((kept, at) ∷ rest) key
unfolding find
back_kept E rest kept at key (inl (inl e)) = inl e
back_kept E rest kept at key (inl (inr same)) = inr (λ e. ground arith)
back_kept E rest kept at key (inr here) = elim (ℕ_discrete kept key) [
  | yes same ↦ inr (λ e. ground arith)
  | no other ↦ inr (λ e. here (ground arith))
]

-- The loop keeps what is known of the pieces begun, and the key of each pending block.
abbrev Kept : MetaInfo → Bitfield → (ℕ → Type 0) → Expired → Type 0
Kept meta have E r =
    Holds (IsProgress meta have) r.progress × Holds (AskedBy (OrIn E r.kept)) r.progress

expire_from-Kept :
    (meta : MetaInfo) (have : Bitfield) (now timeout : ℕ) (rest : List (ℕ × ℕ))
    (m : List (ℕ × PieceProgress)) (E : ℕ → Type 0)
    → IsConsistent meta
    → Holds (IsProgress meta have) m
    → Holds (AskedBy (OrIn E rest)) m
    → Kept meta have E (expire_from now timeout rest m)
unfolding expire_from
expire_from-Kept meta have now timeout [] m E c begun asked = (begun, asked)
expire_from-Kept meta have now timeout ((key, at) ∷ rest) m E c begun asked =
    elim (Bool-cases (ltb ((now + 2 ^ 64 - at) % 2 ^ 64) timeout)) [
      | inl fresh ↦
          let (begun', asked') =
            expire_from-Kept meta have now timeout rest m (OrKey E key) c begun
              (λ k w e b lt is. widen_kept E rest key at _ (asked k w e b lt is)) in
          rw fresh (begun', λ k w e b lt is. back_kept E _ key at _ (asked' k w e b lt is))
      | inr late ↦
          let piece : ℕ = u32 (key / 2 ^ 32) in
          let offset : ℕ = u32 key in
          rw late (
            expire_from-Kept meta have now timeout rest (release_in m piece offset) E c
              (release_in-begun meta have m piece offset begun)
              (release_in-AskedBy meta have m piece offset _ _ c begun (omega arith)
                (λ key' fits ne here. narrow_late E rest key at key' fits ne here) asked))
    ]

expired-Inv :
    (p : PiecePicker) (r : Expired)
    → Inv p
    → Kept p.meta p.have (λ _. ⊥) r
    → Inv (record p { pending = r.kept; progress = r.progress })
expired-Inv p r v h =
    Inv-blocks p r.progress r.kept v h.0 (λ k w e b lt is. only_in _ (h.1 k w e b lt is))
  where
    only_in : (key : ℕ) → OrIn (λ _. ⊥) r.kept key → find key r.kept ≢ none
    only_in key (inl e) = absurd e
    only_in key (inr here) = here

-- Requests that time out keep the invariant: what is still pending can still expire.
pub expire_requests-Inv :
    (p : PiecePicker) (now timeout : ℕ) → Inv p → Inv (expire_requests p now timeout).0
unfolding expire_requests
expire_requests-Inv p now timeout v =
    expired-Inv p (expire_from now timeout p.pending p.progress) v (
      expire_from-Kept p.meta p.have now timeout p.pending p.progress (λ _. ⊥) v.consistent v.begun
        (λ k w e b lt is. inr (v.asked k w e b lt is)))
