-- ===== src/WireGuard/Handshake.antt =====
-- source/net/wg/wireguard.cpp: the handshake, both sides of it. What `random_bytes` draws is an
-- argument: 32 bytes for a key, and the index of the session. A message sent is the list of its bytes.
use torfoil.Prelude.{
  ℕ, Bool, true, false, ◌||◌, not, Option, none, some, [], ◌∷◌, ◌++◌, ◌==◌, if◌then◌else◌, length,
  get_or, drop, Bytes, replicate,
}
use torfoil.WireGuard.{
  Primitives, WireError, Noise, Peer, slice, is_zero_key, clamp, start_noise, mix_chain,
  mix_ephemeral, mix_key, mix_preshared, seal_text, unseal_text, compute_mac1,
  derive_transport_keys,
}
use torfoil.WireGuard.Codec.{write_le32, read_le32, tai64n}

abbrev pub initiation_size : ℕ
initiation_size = 148

abbrev pub response_size : ℕ
response_size = 92

module _ (c : Primitives) where
  -- The key pair and the index of a new session, and the state that the ephemeral key leaves.
  unfoldable pub begin_initiation : Peer → Bytes → ℕ → Peer
  unfolding clamp start_noise mix_ephemeral
  begin_initiation p random index =
      let private = clamp random in
      let public = c.public_key private in
      record p {
        ephemeral_private = private;
        ephemeral_public = public;
        local_index = index;
        noise = mix_ephemeral c public (start_noise c p.peer_public);
      }

  -- Our static key, for the owner of `peer_public`.
  unfoldable pub seal_static : Peer → Noise × Bytes
  unfolding mix_key seal_text
  seal_static p =
      let (n, key) = mix_key c (c.scalarmult p.ephemeral_private p.peer_public) p.noise in
      seal_text c key p.static_public n

  unfoldable pub seal_timestamp : Peer → ℕ → Noise × Bytes
  unfolding mix_key seal_text tai64n
  seal_timestamp p unix_ns =
      let (n, key) = mix_key c (c.scalarmult p.static_private p.peer_public) p.noise in
      seal_text c key (tai64n unix_ns) n

  -- The message up to its two MACs.
  unfoldable pub initiation_body : Peer → Bytes → Bytes → Bytes
  unfolding write_le32
  initiation_body p static_box timestamp_box =
      1
      ∷ 0
      ∷ 0
      ∷ 0
      ∷ (write_le32 p.local_index ++ (p.ephemeral_public ++ (static_box ++ timestamp_box)))

  unfoldable pub finish_initiation : Peer → ℕ → ℕ → Bytes → Peer × Option Bytes
  unfolding seal_timestamp initiation_body compute_mac1
  finish_initiation p now_ms unix_ns static_box =
      let (n, timestamp_box) = seal_timestamp p unix_ns in
      let body = initiation_body p static_box timestamp_box in
      (
        record p { noise = n; handshake_in_progress = true; last_handshake_attempt_ms = now_ms },
        some (body ++ (compute_mac1 c p.peer_public body ++ replicate 16 0)),
      )

  unfoldable pub make_initiation : Peer → Bytes → ℕ → ℕ → ℕ → Peer × Option Bytes
  unfolding begin_initiation seal_static finish_initiation
  make_initiation p random index now_ms unix_ns =
      let p1 = begin_initiation p random index in
      if is_zero_key (c.scalarmult p1.ephemeral_private p1.peer_public)
      then (record p1 { last_error = WireError.degenerate_server_key }, none)
      else (let (n, static_box) = seal_static p1 in
          let p2 = record p1 { noise = n } in
          if is_zero_key (c.scalarmult p2.static_private p2.peer_public)
          then (record p2 { last_error = WireError.degenerate_static_secret }, none)
          else finish_initiation p2 now_ms unix_ns static_box)

  unfoldable pub fail_with : Peer → WireError → Peer × Bool
  fail_with p e = (record p { last_error = e }, false)

  -- The part behind the checks of the secrets.
  unfoldable pub accept_response : Peer → Bytes → ℕ → Peer × Bool
  unfolding fail_with mix_preshared unseal_text derive_transport_keys
  accept_response p msg now_ms =
      let (n, key) = mix_preshared c p.preshared p.noise in
      elim (unseal_text c key 0 (slice 44 16 msg) n) [
        | none ↦ fail_with (record p { noise = n }) WireError.response_forged
        | some (n', _) ↦ (
          record (derive_transport_keys c true (record p { noise = n' })) {
            established = true;
            handshake_in_progress = false;
            established_at_ms = now_ms;
            last_send_ms = now_ms;
            last_recv_ms = now_ms;
          },
          true,
        )
      ]

  -- The secrets of the answer's ephemeral key.
  unfoldable pub mix_secrets : Peer → Bytes → Bytes → ℕ → ℕ → Peer × Bool
  unfolding fail_with mix_chain mix_ephemeral accept_response
  mix_secrets p msg peer_ephemeral sender now_ms =
      let p1 = record p { remote_index = sender; noise = mix_ephemeral c peer_ephemeral p.noise } in
      let shared = c.scalarmult p1.ephemeral_private peer_ephemeral in
      let p2 = record p1 { noise = mix_chain c shared p1.noise } in
      let cross = c.scalarmult p2.static_private peer_ephemeral in
      if is_zero_key shared
      then fail_with p1 WireError.degenerate_ephemeral
      else if is_zero_key cross
      then fail_with p2 WireError.degenerate_cross_secret
      else accept_response (record p2 { noise = mix_chain c cross p2.noise }) msg now_ms

  unfoldable pub consume_response : Peer → Bytes → ℕ → Peer × Bool
  unfolding fail_with read_le32 mix_secrets
  consume_response p msg now_ms =
      if not (length msg == response_size)
      then fail_with p WireError.response_size
      else if not (get_or msg 0 0 == 2)
      then fail_with p WireError.message_type
      else if not p.handshake_in_progress
      then fail_with p WireError.no_initiation
      else if not (read_le32 (drop 8 msg) == p.local_index)
      then fail_with p WireError.other_session
      else mix_secrets p msg (slice 12 32 msg) (read_le32 (drop 4 msg)) now_ms

  -- The time stamp, once the initiator's static key is known.
  unfoldable pub consume_timestamp : Peer → Bytes → Bytes → Peer × Bool
  unfolding mix_key unseal_text read_le32
  consume_timestamp p initiator_static msg =
      let (n, key) = mix_key c (c.scalarmult p.static_private initiator_static) p.noise in
      elim (unseal_text c key 12 (slice 88 28 msg) n) [
        | none ↦ (record p { noise = n }, false)
        | some (n', timestamp) ↦ (
          record p {
            noise = n';
            peer_public = initiator_static;
            remote_index = read_le32 (drop 4 msg);
            handshake_in_progress = true;
          },
          true,
        )
      ]

  unfoldable pub consume_static : Peer → Bytes → Peer × Bool
  unfolding start_noise mix_ephemeral mix_key unseal_text consume_timestamp
  consume_static p msg =
      let peer_ephemeral = slice 8 32 msg in
      let (n, key) =
        mix_key c (c.scalarmult p.static_private peer_ephemeral)
          (mix_ephemeral c peer_ephemeral (start_noise c p.static_public)) in
      let p1 = record p { initiator_ephemeral = peer_ephemeral; noise = n } in
      elim (unseal_text c key 32 (slice 40 48 msg) n) [
        | none ↦ (p1, false)
        | some (n', initiator_static) ↦
            consume_timestamp (record p1 { noise = n' }) initiator_static msg
      ]

  unfoldable pub consume_initiation_for_test : Peer → Bytes → Peer × Bool
  unfolding consume_static
  consume_initiation_for_test p msg =
      if not (length msg == initiation_size) || not (get_or msg 0 0 == 1)
      then (p, false)
      else consume_static p msg

  -- The ephemeral key and the secrets of the response.
  unfoldable pub begin_response : Peer → Bytes → ℕ → Peer
  unfolding clamp mix_ephemeral mix_chain
  begin_response p random index =
      let private = clamp random in
      let public = c.public_key private in
      let dh = c.scalarmult private p.initiator_ephemeral in
      let dh_static = c.scalarmult private p.peer_public in
      record p {
        ephemeral_private = private;
        ephemeral_public = public;
        local_index = index;
        noise = mix_chain c dh_static (mix_chain c dh (mix_ephemeral c public p.noise));
      }

  unfoldable pub response_body : Peer → Bytes → Bytes
  unfolding write_le32
  response_body p tag =
      2
      ∷ 0
      ∷ 0
      ∷ 0
      ∷ (write_le32 p.local_index ++ (write_le32 p.remote_index ++ (p.ephemeral_public ++ tag)))

  unfoldable pub finish_response : Peer → Peer × Bytes
  unfolding mix_preshared seal_text response_body compute_mac1 derive_transport_keys
  finish_response p =
      let (n, key) = mix_preshared c p.preshared p.noise in
      let (n', tag) = seal_text c key [] n in
      let body = response_body p tag in
      (
        record (derive_transport_keys c false (record p { noise = n' })) {
          established = true;
          handshake_in_progress = false;
        },
        body ++ (compute_mac1 c p.peer_public body ++ replicate 16 0),
      )

  unfoldable pub make_response_for_test : Peer → Bytes → ℕ → Peer × Option Bytes
  unfolding begin_response finish_response
  make_response_for_test p random index =
      if not p.handshake_in_progress
      then (p, none)
      else (let (p', msg) = finish_response (begin_response p random index) in (p', some msg))
