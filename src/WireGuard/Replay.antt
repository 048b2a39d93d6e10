-- ===== src/WireGuard/Replay.antt =====
-- source/net/wg/wireguard.cpp: what decapsulate lets through in one session.
use torfoil.Prelude.{
  ℕ, zero, suc, ◌+◌, ◌-◌, ◌^◌, ◌<◌, Bool, true, false, not, Option, none, some, List, [], ◌∷◌, ◌≡◌,
  inl, inr, refl, sym, subst, arith, ltb, ◌==◌, if◌then◌else◌, Option-cases, length, drop, get_or,
  All, IsByte, Bytes,
}
use native.Mathlib.Nat.{pow-succ'}
use torfoil.WireGuard.{Primitives, WireError, Peer, slice}
use torfoil.WireGuard.Codec.{read_le, read_le64}
use torfoil.WireGuard.Transport.{window_of, refuses, admit, open_packet, decapsulate}
use torfoil.WireGuard.Tells.{Seen}
use torfoil.WireGuard.Window.{Knows, admit-Knows, refuses-some}

abbrev pub counter_of : Bytes → ℕ
counter_of msg = read_le64 (drop 8 msg)

read_le-lt : (n : ℕ) (b : Bytes) → All IsByte b → read_le n b < 256 ^ n
unfolding read_le
read_le-lt zero b h = omega arith
read_le-lt (suc n) [] h = omega (arith, pow-succ' 256 n, read_le-lt n [] tt)
read_le-lt (suc n) (a ∷ b) h = omega (arith, h.0, pow-succ' 256 n, read_le-lt n b h.1)

All-drop : (n : ℕ) (b : Bytes) → All IsByte b → All IsByte (drop n b)
All-drop zero b h = h
All-drop (suc n) [] h = tt
All-drop (suc n) (a ∷ b) h = All-drop n b h.1

counter_of-lt : (msg : Bytes) → All IsByte msg → counter_of msg < 2 ^ 64
counter_of-lt msg h = read_le-lt 8 (drop 8 msg) (All-drop 8 msg h)

if-either {ℓ κ} :
    {A : Type ℓ} (P : A → Type κ) (b : Bool) {x y : A} → P x → P y → P (if b then x else y)
if-either P true on_true on_false = on_true
if-either P false on_true on_false = on_false

-- What comes of one message: the window stays, or the message is let through and its counter admitted.
data Outcome (p : Peer) (counter : ℕ) (r : Peer × Option Bytes) : Type 0 where
  refused : r.1 ≡ none → window_of r.0 ≡ window_of p → Outcome p counter r
  admitted :
      (packet : Bytes)
      → r.1 ≡ some packet
      → refuses (window_of p) counter ≡ none
      → window_of r.0 ≡ admit (window_of p) counter
      → Outcome p counter r

module _ (c : Primitives) where
  open_packet-Outcome :
      (p : Peer) (msg : Bytes) (counter out_capacity now_ms : ℕ)
      → refuses (window_of p) counter ≡ none
      → Outcome p counter (open_packet c p msg counter out_capacity now_ms)
  unfolding open_packet
  open_packet-Outcome p msg counter out_capacity now_ms free =
      if-either (Outcome p counter) (ltb out_capacity (length msg - 16 - 16)) (refused refl refl)
        (elim (Option-cases (unsealed p msg counter)) [
          | inl forged ↦ rw forged (refused refl refl)
          | inr (packet, opened) ↦ rw opened (admitted packet refl free refl)
        ])
    where
      unsealed : Peer → Bytes → ℕ → Option Bytes
      unsealed p msg counter =
          let payload_len = length msg - 16 - 16 in
          c.unseal p.recv_key (c.nonce counter) [] (slice 16 payload_len msg)
            (slice (16 + payload_len) 16 msg)

  decapsulate-Outcome :
      (p : Peer) (msg : Bytes) (out_capacity now_ms : ℕ)
      → Outcome p (counter_of msg) (decapsulate c p msg out_capacity now_ms)
  unfolding decapsulate
  decapsulate-Outcome p msg out_capacity now_ms =
      if-either kept (not p.established) (refused refl refl) (
        if-either kept (ltb (length msg) (16 + 16)) (refused refl refl) (
          if-either kept (not (get_or msg 0 0 == 4)) (refused refl refl)
            (elim (Option-cases (refuses (window_of p) (counter_of msg))) [
              | inl free ↦
                  rw free (open_packet-Outcome p msg (counter_of msg) out_capacity now_ms free)
              | inr (e, refusal) ↦ rw refusal (refused refl refl)
            ])))
    where
      kept : Peer × Option Bytes → Type 0
      kept = Outcome p (counter_of msg)

-- A message that arrives, the room for its packet, and the time.
pub record Arrival : Type 0 where
  pub msg : Bytes
  pub out_capacity : ℕ
  pub now_ms : ℕ

-- The counters of the messages let through, in order.
abbrev pub let_through : Primitives → Peer → List Arrival → List ℕ
let_through c p [] = []
let_through c p (a ∷ arrivals) =
    let (p', packet) = decapsulate c p a.msg a.out_capacity a.now_ms in
    let rest = let_through c p' arrivals in
    elim packet [ none ↦ rest | some _ ↦ counter_of a.msg ∷ rest ]

abbrev pub NoneTwice : List ℕ → Type 0
NoneTwice [] = Unit
NoneTwice (n ∷ ns) = (Seen n ns → ⊥) × NoneTwice ns

abbrev pub IsMessage : Arrival → Type 0
IsMessage a = All IsByte a.msg

-- Those let through differ, and none was seen before.
abbrev New : List ℕ → List ℕ → Type 0
New seen ns = NoneTwice ns × ((n : ℕ) → Seen n seen → Seen n ns → ⊥)

Outcome-New :
    (p : Peer) (seen rest : List ℕ) (counter : ℕ) (r : Peer × Option Bytes)
    → counter < 2 ^ 64
    → Knows (window_of p) seen
    → Outcome p counter r
    → ((seen' : List ℕ) → Knows (window_of r.0) seen' → New seen' rest)
    → New seen (elim r.1 [ none ↦ rest | some _ ↦ counter ∷ rest ])
Outcome-New p seen rest counter r small v (refused nothing same) later =
    rw nothing (later seen (subst (λ w. Knows w seen) (sym same) v))
Outcome-New p seen rest counter r small v (admitted packet out free next) later =
    let (differ, apart) =
      later (counter ∷ seen)
        (subst (λ w. Knows w (counter ∷ seen)) (sym next) (admit-Knows _ seen counter small v)) in
    rw out (
      (apart counter (inl refl), differ),
      (λ n s s'. elim s' [
        | inl e ↦ not_free (refuses-some _ seen counter v (subst (λ m. Seen m seen) e s))
        | inr later_n ↦ apart n (inr s) later_n
      ]),
    )
  where
    not_free : (e : WireError) × (refuses (window_of p) counter ≡ some e) → ⊥
    not_free (e, refusal) = absurd (cc)

let_through-New :
    (c : Primitives) (p : Peer) (seen : List ℕ) (arrivals : List Arrival)
    → All IsMessage arrivals
    → Knows (window_of p) seen
    → New seen (let_through c p arrivals)
let_through-New c p seen [] h v = (tt, λ n s s'. s')
let_through-New c p seen (a ∷ arrivals) h v =
    Outcome-New p seen _ (counter_of a.msg) (decapsulate c p a.msg a.out_capacity a.now_ms)
      (counter_of-lt a.msg h.0) v (decapsulate-Outcome c p a.msg a.out_capacity a.now_ms)
      (λ seen' v'.
        let_through-New c (decapsulate c p a.msg a.out_capacity a.now_ms).0 seen' arrivals h.1 v')

-- From keys with an empty window on, whatever messages of bytes arrive and in whatever order, no
-- two of those that decapsulate lets through have the same counter.
pub let_through-NoneTwice :
    (c : Primitives) (p : Peer) (arrivals : List Arrival)
    → p.have_recv ≡ false
    → All IsMessage arrivals
    → NoneTwice (let_through c p arrivals)
let_through-NoneTwice c p arrivals fresh h =
    (let_through-New c p [] arrivals h record {
      fresh = λ _. refl;
      below = λ _ n s. absurd s;
      tells = λ begun. absurd (cc);
      fits = λ begun. absurd (cc);
    }).0
