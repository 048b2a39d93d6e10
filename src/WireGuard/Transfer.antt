-- ===== src/WireGuard/Transfer.antt =====
-- source/net/wg/wireguard.cpp: packets sent through an established session, one after the other.
use torfoil.Prelude.{
  ℕ, suc, ◌+◌, ◌%◌, ◌^◌, ◌≤◌, ◌<◌, true, false, Option, none, some, List, [], ◌∷◌, ◌≡◌, refl, ap,
  arith, leb, length, Bytes, All, map,
}
use torfoil.WireGuard.{Primitives, Peer}
use torfoil.WireGuard.Transport.{
  reject_after_ms, since, Window, window_of, with_window, refuses, admit, decapsulate, encapsulate,
}
use torfoil.WireGuard.Channel.{Laws, encapsulate-frame, decapsulate-frame}

-- A counter above all that the window holds.
abbrev IsAhead : Window → ℕ → Type 0
IsAhead w counter = w.have_recv ≡ true → w.highest < counter

refuses-IsAhead :
    (w : Window) (counter : ℕ)
    → counter + 64 < 2 ^ 64
    → IsAhead w counter
    → refuses w counter ≡ none
unfolding refuses
refuses-IsAhead w counter small ahead = ground arith

admit-IsAhead :
    (w : Window) (counter : ℕ) → IsAhead w counter → IsAhead (admit w counter) (counter + 1)
unfolding admit
admit-IsAhead w counter ahead = ground arith

-- A side that can send `n` packets more, and one that takes them.
pub record Linked (a b : Peer) (now_ms n : ℕ) : Type 0 where
  pub sends : a.established ≡ true
  pub valid : leb reject_after_ms (since now_ms a.established_at_ms) ≡ false
  pub receives : b.established ≡ true
  pub key : b.recv_key ≡ a.send_key
  pub counters_left : a.send_counter + n + 64 ≤ 2 ^ 64
  pub ahead : IsAhead (window_of b) a.send_counter

abbrev sent : Peer → ℕ → Peer
sent a now_ms = record a { send_counter = (a.send_counter + 1) % 2 ^ 64; last_send_ms = now_ms }

abbrev received : Peer → ℕ → ℕ → Peer
received b counter now_ms = record (with_window b (admit (window_of b) counter)) {
  last_recv_ms = now_ms;
}

Linked-next :
    (a b : Peer) (now_ms n : ℕ)
    → Linked a b now_ms (suc n)
    → Linked (sent a now_ms) (received b a.send_counter now_ms) now_ms n
Linked-next a b now_ms n l = record {
  sends = l.sends;
  valid = l.valid;
  receives = l.receives;
  key = l.key;
  counters_left = omega (arith, l.counters_left);
  ahead = λ begun.
      omega (arith, l.counters_left, admit-IsAhead (window_of b) a.send_counter l.ahead begun);
}

-- What arrives of the packets.
abbrev pub transfer : Primitives → Peer → Peer → ℕ → ℕ → List Bytes → List (Option Bytes)
transfer c a b out_capacity now_ms [] = []
transfer c a b out_capacity now_ms (packet ∷ packets) =
    let (a', msg) = encapsulate c a packet out_capacity now_ms in
    let (b', arrived) = elim msg as (λ _. Peer × Option Bytes) [
      | none ↦ (b, none)
      | some m ↦ decapsulate c b m out_capacity now_ms
    ] in
    arrived ∷ transfer c a' b' out_capacity now_ms packets

-- Packets that fit into the buffers, encapsulated and decapsulated one after the other in an
-- established session with the same keys, all arrive, as they were, if the counters do not run out.
pub transfer-All :
    (c : Primitives) (a b : Peer) (out_capacity now_ms : ℕ) (packets : List Bytes)
    → Laws c
    → Linked a b now_ms (length packets)
    → All (λ packet. 32 + length packet ≤ out_capacity) packets
    → transfer c a b out_capacity now_ms packets ≡ map some packets
transfer-All c a b out_capacity now_ms [] laws l fit = refl
transfer-All c a b out_capacity now_ms (packet ∷ packets) laws l fit =
    rw
      (
        encapsulate-frame c laws a packet out_capacity now_ms l.sends l.valid fit.0,
        decapsulate-frame c laws a b packet out_capacity now_ms l.receives l.key
            (omega (arith, l.counters_left))
            (refuses-IsAhead (window_of b) a.send_counter (omega (arith, l.counters_left)) l.ahead)
            (omega (arith, fit.0)),
      )
      (ap (◌∷◌ (some packet)) (
        transfer-All c (sent a now_ms) (received b a.send_counter now_ms) out_capacity now_ms
          packets laws (Linked-next a b now_ms (length packets) l) fit.1))
