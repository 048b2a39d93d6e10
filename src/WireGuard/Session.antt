-- ===== src/WireGuard/Session.antt =====
-- source/net/wg/wireguard.cpp: a whole handshake of two sides, and the session that it leaves.
use torfoil.Prelude.{
  ℕ, ◌+◌, ◌^◌, ◌≤◌, ◌<◌, Bool, true, false, Option, none, some, List, ◌≡◌, refl, sym, ap, ◌∙◌,
  arith, length, map, All, Bytes, if◌then◌else◌, ◌>>=◌,
}
use torfoil.WireGuard.{Primitives, Peer, is_zero_key, clamp}
use torfoil.WireGuard.Handshake.{
  begin_initiation, make_initiation, consume_initiation_for_test, make_response_for_test,
  consume_response,
}
use torfoil.WireGuard.Channel.{Laws}
use torfoil.WireGuard.Transfer.{Linked, transfer, transfer-All}
use torfoil.WireGuard.Initiation.{initiation_taken, consume_initiation-taken}
use torfoil.WireGuard.Steps.{Paired, initiated, make_initiation-made}
use torfoil.WireGuard.Agreement.{
  Awaits, Session, reply-accepted, finished_a, finished_b, finished-Session,
}

-- What both sides draw, and the clocks.
pub record Draws : Type 0 where
  pub random_a : Bytes
  pub index_a : ℕ
  pub random_b : Bytes
  pub index_b : ℕ
  pub now_ms : ℕ
  pub unix_ns : ℕ

-- The second side's answer, and what becomes of it.
abbrev after_initiation : Primitives → Draws → Peer → Peer × Bool → Option (Peer × Peer)
after_initiation c d a1 (b1, taken) =
    let (b2, response) = make_response_for_test c b1 d.random_b d.index_b in
    (if taken then response else none) >>= λ r. after_response b2 (consume_response c a1 r d.now_ms)
  where
    after_response : Peer → Peer × Bool → Option (Peer × Peer)
    after_response b2 (a2, accepted) = if accepted then some (a2, b2) else none

-- The two messages and what becomes of them: both sides, if all four steps succeed.
abbrev pub shake_hands : Primitives → Peer → Peer → Draws → Option (Peer × Peer)
shake_hands c a b d =
    let (a1, initiation) = make_initiation c a d.random_a d.index_a d.now_ms d.unix_ns in
    initiation >>= λ m. after_initiation c d a1 (consume_initiation_for_test c b m)

-- No secret of the initiator is zero.
pub record NonDegenerate (c : Primitives) (a : Peer) (d : Draws) : Type 0 where
  pub server_key : is_zero_key (c.scalarmult (clamp d.random_a) a.peer_public) ≡ false
  pub static_secret : is_zero_key (c.scalarmult a.static_private a.peer_public) ≡ false
  pub ephemeral :
      is_zero_key (c.scalarmult (clamp d.random_a) (c.public_key (clamp d.random_b))) ≡ false
  pub cross_secret :
      is_zero_key (c.scalarmult a.static_private (c.public_key (clamp d.random_b))) ≡ false

Session-Linked :
    (now_ms : ℕ) (a b : Peer) (n : ℕ) → n + 64 ≤ 2 ^ 64 → Session now_ms a b → Linked a b now_ms n
Session-Linked now_ms a b n few s = record {
  sends = s.established_a;
  valid = rw s.since_a (ground arith);
  receives = s.established_b;
  key = sym s.to_b;
  counters_left = omega (arith, s.fresh_a.0);
  ahead = λ begun. absurd (two_ways s.fresh_b.1 begun);
}
  where
    two_ways : {t : Bool} → t ≡ false → t ≡ true → ⊥
    two_ways f t = absurd (cc)

module _ (c : Primitives) (laws : Laws c) (a b : Peer) (d : Draws) (paired : Paired c a b)
    (sound : NonDegenerate c a d) (small_a : d.index_a < 2 ^ 32)
    (small_b : d.index_b < 2 ^ 32) where
  abbrev waiting_a : Peer
  waiting_a = initiated c a d.random_a d.index_a d.now_ms d.unix_ns

  abbrev taken_b : Peer
  taken_b = initiation_taken c laws a b paired d.random_a d.index_a d.unix_ns

  both-Awaits : Awaits c waiting_a taken_b
  unfolding begin_initiation
  both-Awaits = record {
    waiting = refl;
    noise = refl;
    ephemeral = refl;
    static = paired.own_a;
    shared = paired.shared;
    session = refl;
    small = small_a;
  }

  abbrev ends : Peer × Peer
  ends = (
    finished_a c laws waiting_a taken_b both-Awaits d.random_b d.index_b d.now_ms small_b,
    finished_b c laws waiting_a taken_b both-Awaits d.random_b d.index_b d.now_ms small_b,
  )

  shake_hands-ends : shake_hands c a b d ≡ some ends
  unfolding make_response_for_test begin_initiation
  shake_hands-ends =
      ap (λ r. r.1 >>= λ m. after_initiation c d r.0 (consume_initiation_for_test c b m))
        (make_initiation-made c a d.random_a d.index_a d.now_ms d.unix_ns sound.server_key
          sound.static_secret)
      ∙ ap (after_initiation c d waiting_a)
          (consume_initiation-taken c laws a b paired d.random_a d.index_a d.unix_ns small_a)
      ∙ ap (λ t. if t.1 then some (t.0, ends.1) else none)
          (reply-accepted c laws waiting_a taken_b both-Awaits d.random_b d.index_b d.now_ms small_b
            sound.ephemeral sound.cross_secret)

  -- Two sides that hold each other's static keys and the same preshared key, where no secret is
  -- zero and the indices fit 32 bits, complete the handshake and have a session: each has the
  -- other's index and the other's sending key to receive with.
  pub shake_hands-Session :
      (ends : Peer × Peer) × (shake_hands c a b d ≡ some ends) × Session d.now_ms ends.0 ends.1
  shake_hands-Session = (
    ends,
    shake_hands-ends,
    finished-Session c laws waiting_a taken_b both-Awaits d.random_b d.index_b d.now_ms small_b,
  )

  -- After such a handshake, all packets that fit into the buffers reach the second side, as they were,
  -- if they are sent at once and are fewer than 2^64 - 64.
  pub shake_hands-transfer :
      (out_capacity : ℕ) (packets : List Bytes)
      → All (λ packet. 32 + length packet ≤ out_capacity) packets
      → length packets + 64 ≤ 2 ^ 64
      → (ends : Peer × Peer) × (shake_hands c a b d ≡ some ends)
        × (transfer c ends.0 ends.1 out_capacity d.now_ms packets ≡ map some packets)
  shake_hands-transfer out_capacity packets fit few =
      let (ends, made, s) = shake_hands-Session in
      (
        ends,
        made,
        transfer-All c ends.0 ends.1 out_capacity d.now_ms packets laws
            (Session-Linked d.now_ms ends.0 ends.1 (length packets) few s) fit,
      )
