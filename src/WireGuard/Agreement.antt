-- ===== src/WireGuard/Agreement.antt =====
-- source/net/wg/wireguard.cpp: the answer of the handshake, written by make_response_for_test and read
-- by consume_response, and the keys that both sides then have.
use torfoil.Prelude.{
  ℕ, ◌^◌, ◌<◌, Bool, true, false, not, none, some, [], ◌≡◌, refl, sym, ap, ◌∙◌, arith, subst, drop,
  Bytes, ◌==◌,
}
use torfoil.WireGuard.{
  Primitives, WireError, Noise, Peer, slice, is_zero_key, clamp, mix_chain, mix_ephemeral,
  mix_preshared, unseal_text, seal_text, derive_transport_keys,
}
use torfoil.WireGuard.Codec.{read_le32}
use torfoil.WireGuard.Handshake.{
  begin_response, finish_response, mix_secrets, accept_response, consume_response,
}
use torfoil.WireGuard.Channel.{Laws, if-false}
use torfoil.WireGuard.Boxes.{
  Response, response_bytes-Response, length-seal_text, unseal_text-seal_text,
}

module _ (c : Primitives) where
  -- The noise and the session from the answer's two keys on.
  abbrev answered : Noise → Bytes → Bytes → Bytes → Noise
  answered n ephemeral shared cross =
      mix_chain c cross (mix_chain c shared (mix_ephemeral c ephemeral n))

  abbrev ephemeral_b : Bytes → Bytes
  ephemeral_b random = c.public_key (clamp random)

  consume_response-accept :
      (a : Peer) (msg ephemeral tag : Bytes) (index now_ms : ℕ)
      → Response msg index a.local_index ephemeral tag
      → a.handshake_in_progress ≡ true
      → is_zero_key (c.scalarmult a.ephemeral_private ephemeral) ≡ false
      → is_zero_key (c.scalarmult a.static_private ephemeral) ≡ false
      → consume_response c a msg now_ms
        ≡ accept_response c
            (record a {
              remote_index = index;
              noise =
                  answered a.noise ephemeral
                    (c.scalarmult a.ephemeral_private ephemeral)
                    (c.scalarmult a.static_private ephemeral);
            })
            msg
            now_ms
  unfolding consume_response
  consume_response-accept a msg ephemeral tag index now_ms r waiting shared cross =
      if-false _ _ (ap (λ n. not (n == 92)) r.size)
      ∙ if-false _ _ (ap (λ n. not (n == 2)) r.typed)
      ∙ if-false _ _ (ap not waiting)
      ∙ if-false _ _ same_session
      ∙ ap (λ e. mix_secrets c a msg e (read_le32 (drop 4 msg)) now_ms) r.ephemeral_part
      ∙ ap (λ i. mix_secrets c a msg ephemeral i now_ms) r.sender
      ∙ if-false _ _ shared
      ∙ if-false _ _ cross
    where
      same_session : not (read_le32 (drop 8 msg) == a.local_index) ≡ false
      same_session = ground (arith, r.receiver)

  abbrev pub accepted : Peer → Noise → ℕ → Peer
  accepted p n now_ms = record (derive_transport_keys c true (record p { noise = n })) {
    established = true;
    handshake_in_progress = false;
    established_at_ms = now_ms;
    last_send_ms = now_ms;
    last_recv_ms = now_ms;
  }

  accept_response-opened :
      (p : Peer) (msg : Bytes) (now_ms : ℕ) (n' : Noise) (text : Bytes)
      → (let (n, key) = mix_preshared c p.preshared p.noise in
          unseal_text c key 0 (slice 44 16 msg) n ≡ some (n', text))
      → accept_response c p msg now_ms ≡ (accepted p n' now_ms, true)
  unfolding accept_response
  accept_response-opened p msg now_ms n' text opened =
      ap
        (λ o. elim o as (λ _. Peer × Bool) [
          | none ↦ (
            record p {
              noise = (mix_preshared c p.preshared p.noise).0;
              last_error = WireError.response_forged;
            },
            false,
          )
          | some (n, _) ↦ (accepted p n now_ms, true)
        ])
        opened

module _ (c : Primitives) (laws : Laws c) (b : Peer) (random : Bytes) (index : ℕ) where
  -- The responder's noise before the preshared key.
  abbrev noise_b : Noise
  noise_b =
      answered c b.noise (ephemeral_b c random) (c.scalarmult (clamp random) b.initiator_ephemeral)
        (c.scalarmult (clamp random) b.peer_public)

  abbrev keyed_b : Noise × Bytes
  keyed_b = mix_preshared c b.preshared noise_b

  abbrev sealed_b : Noise × Bytes
  sealed_b = seal_text c keyed_b.1 [] keyed_b.0

  abbrev pub response_message : Bytes
  response_message = (finish_response c (begin_response c b random index)).1

  response_message-Response :
      index < 2 ^ 32
      → b.remote_index < 2 ^ 32
      → Response response_message index b.remote_index (ephemeral_b c random) sealed_b.1
  unfolding finish_response begin_response
  response_message-Response small small' =
      response_bytes-Response index b.remote_index (ephemeral_b c random) sealed_b.1 _ small small'
        (laws.length-public_key (clamp random)) (length-seal_text c laws keyed_b.1 [] keyed_b.0)
        (laws.length-mac _ _)

-- An initiator that waits, and a responder that took the initiation.
pub record Awaits (c : Primitives) (a b : Peer) : Type 0 where
  pub waiting : a.handshake_in_progress ≡ true
  pub noise : b.noise ≡ a.noise
  pub ephemeral : b.initiator_ephemeral ≡ c.public_key a.ephemeral_private
  pub static : b.peer_public ≡ c.public_key a.static_private
  pub shared : a.preshared ≡ b.preshared
  pub session : b.remote_index ≡ a.local_index
  pub small : a.local_index < 2 ^ 32

-- Both sides of an established session.
pub record Session (now_ms : ℕ) (a b : Peer) : Type 0 where
  pub since_a : a.established_at_ms ≡ now_ms
  pub established_a : a.established ≡ true
  pub established_b : b.established ≡ true
  pub to_b : a.send_key ≡ b.recv_key
  pub to_a : a.recv_key ≡ b.send_key
  pub index_b : a.remote_index ≡ b.local_index
  pub index_a : b.remote_index ≡ a.local_index
  pub fresh_a : (a.send_counter ≡ 0) × (a.have_recv ≡ false)
  pub fresh_b : (b.send_counter ≡ 0) × (b.have_recv ≡ false)

module _ (c : Primitives) (laws : Laws c) (a b : Peer) (h : Awaits c a b) (random : Bytes)
    (index now_ms : ℕ) (small : index < 2 ^ 32) where
  abbrev taken_a : Peer
  taken_a = record a {
    remote_index = index;
    noise =
        answered c a.noise (ephemeral_b c random)
          (c.scalarmult a.ephemeral_private (ephemeral_b c random))
          (c.scalarmult a.static_private (ephemeral_b c random));
  }

  -- Both sides come to the same secrets, and the same noise.
  same_shared :
      c.scalarmult (clamp random) b.initiator_ephemeral
      ≡ c.scalarmult a.ephemeral_private (ephemeral_b c random)
  same_shared =
      ap (c.scalarmult (clamp random)) h.ephemeral
      ∙ laws.scalarmult_comm (clamp random) a.ephemeral_private

  same_cross :
      c.scalarmult (clamp random) b.peer_public
      ≡ c.scalarmult a.static_private (ephemeral_b c random)
  same_cross =
      ap (c.scalarmult (clamp random)) h.static
      ∙ laws.scalarmult_comm (clamp random) a.static_private

  same_noise : noise_b c laws b random index ≡ taken_a.noise
  same_noise =
      ap (λ n. answered c n key secret_b cross_b) h.noise
      ∙ ap (λ s. answered c a.noise key s cross_b) same_shared
      ∙ ap (λ s. answered c a.noise key (c.scalarmult a.ephemeral_private key) s) same_cross
    where
      key : Bytes
      key = ephemeral_b c random

      secret_b : Bytes
      secret_b = c.scalarmult (clamp random) b.initiator_ephemeral

      cross_b : Bytes
      cross_b = c.scalarmult (clamp random) b.peer_public

  same_key : mix_preshared c a.preshared taken_a.noise ≡ keyed_b c laws b random index
  same_key =
      ap (λ k. mix_preshared c k taken_a.noise) h.shared
      ∙ ap (mix_preshared c b.preshared) (sym same_noise)

  abbrev pub reply : Bytes
  reply = response_message c laws b random index

  reply-Response :
      Response reply index a.local_index (ephemeral_b c random) (sealed_b c laws b random index).1
  reply-Response =
      subst (λ i. Response reply index i (ephemeral_b c random) (sealed_b c laws b random index).1)
        h.session
        (response_message-Response c laws b random index small
          (subst (λ i. i < 2 ^ 32) (sym h.session) h.small))

  reply-opened :
      (let (n, key) = mix_preshared c a.preshared taken_a.noise in
        unseal_text c key 0 (slice 44 16 reply) n ≡ some ((sealed_b c laws b random index).0, []))
  reply-opened =
      ap (λ q. unseal_text c q.1 0 (slice 44 16 reply) q.0) same_key
      ∙ ap
          (λ x.
            unseal_text c (keyed_b c laws b random index).1 0 x (keyed_b c laws b random index).0)
          reply-Response.tag_part
      ∙ unseal_text-seal_text c laws (keyed_b c laws b random index).1 [] 0
          (keyed_b c laws b random index).0 refl

  abbrev pub finished_a : Peer
  finished_a = accepted c taken_a (sealed_b c laws b random index).0 now_ms

  abbrev pub finished_b : Peer
  finished_b = (finish_response c (begin_response c b random index)).0

  pub reply-accepted :
      is_zero_key (c.scalarmult a.ephemeral_private (ephemeral_b c random)) ≡ false
      → is_zero_key (c.scalarmult a.static_private (ephemeral_b c random)) ≡ false
      → consume_response c a reply now_ms ≡ (finished_a, true)
  reply-accepted shared cross =
      consume_response-accept c a reply (ephemeral_b c random) (sealed_b c laws b random index).1
        index now_ms reply-Response h.waiting shared cross
      ∙ accept_response-opened c taken_a reply now_ms (sealed_b c laws b random index).0 []
          reply-opened

  pub finished-Session : Session now_ms finished_a finished_b
  unfolding finish_response begin_response derive_transport_keys
  finished-Session = record {
    since_a = refl;
    established_a = refl;
    established_b = refl;
    to_b = refl;
    to_a = refl;
    index_b = refl;
    index_a = h.session;
    fresh_a = (refl, refl);
    fresh_b = (refl, refl);
  }
