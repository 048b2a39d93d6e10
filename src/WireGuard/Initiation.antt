-- ===== src/WireGuard/Initiation.antt =====
-- source/net/wg/wireguard.cpp: the first message of the handshake, written by make_initiation and read
-- by consume_initiation_for_test.
use torfoil.Prelude.{
  ℕ, ◌+◌, ◌^◌, ◌<◌, true, false, not, ◌||◌, some, ◌≡◌, refl, sym, ap, ◌∙◌, length, get_or, Bytes,
  ◌==◌,
}
use torfoil.WireGuard.{
  Primitives, Noise, Peer, slice, clamp, start_noise, mix_ephemeral, mix_key, unseal_text,
  compute_mac1,
}
use torfoil.WireGuard.Codec.{tai64n}
use torfoil.WireGuard.Handshake.{
  begin_initiation, seal_static, seal_timestamp, initiation_body, consume_initiation_for_test,
}
use torfoil.WireGuard.Channel.{Laws, if-false}
use torfoil.WireGuard.Boxes.{
  Initiation, initiation_bytes-Initiation, length-seal_text, unseal_text-seal_text,
}
use torfoil.WireGuard.Steps.{
  Paired, length-tai64n, begun, with_static, initiation_of, consume_static-opened,
  consume_timestamp-opened,
}

module _ (c : Primitives) (laws : Laws c) (a b : Peer) (paired : Paired c a b) (random : Bytes)
    (index unix_ns : ℕ) where
  abbrev ephemeral_a : Bytes
  ephemeral_a = c.public_key (clamp random)

  abbrev pub message : Bytes
  message = initiation_of c a random index unix_ns

  abbrev static_box : Bytes
  static_box = (seal_static c (begun c a random index)).1

  abbrev time_box : Bytes
  time_box = (seal_timestamp c (with_static c a random index) unix_ns).1

  abbrev key_static : Noise × Bytes
  key_static = mix_key c (c.scalarmult (clamp random) a.peer_public) (begun c a random index).noise

  abbrev key_time : Noise × Bytes
  key_time =
      mix_key c (c.scalarmult a.static_private a.peer_public) (with_static c a random index).noise

  length-static_box : length static_box ≡ 48
  unfolding seal_static begin_initiation
  length-static_box =
      length-seal_text c laws key_static.1 a.static_public key_static.0
      ∙ ap (λ n. n + 16) (ap length paired.own_a ∙ laws.length-public_key a.static_private)

  length-time_box : length time_box ≡ 28
  unfolding seal_timestamp begin_initiation
  length-time_box =
      length-seal_text c laws key_time.1 (tai64n unix_ns) key_time.0
      ∙ ap (λ n. n + 16) (length-tai64n unix_ns)

  message-Initiation : index < 2 ^ 32 → Initiation message index ephemeral_a static_box time_box
  unfolding initiation_body begin_initiation compute_mac1
  message-Initiation small =
      initiation_bytes-Initiation index ephemeral_a static_box time_box _ small
        (laws.length-public_key (clamp random)) length-static_box length-time_box
        (laws.length-mac _ _)

  -- Both sides come to the same key for the initiator's static key.
  static-opened :
      index < 2 ^ 32
      → (let (n, key) =
            mix_key c
              (c.scalarmult b.static_private ephemeral_a)
              (mix_ephemeral c ephemeral_a (start_noise c b.static_public)) in
          unseal_text c key 32 (slice 40 48 message) n
          ≡ some ((seal_static c (begun c a random index)).0, a.static_public))
  unfolding seal_static begin_initiation
  static-opened small =
      ap (λ q. unseal_text c q.1 32 (slice 40 48 message) q.0) same_keys
      ∙ ap (λ x. unseal_text c key_a.1 32 x key_a.0) (message-Initiation small).static_part
      ∙ unseal_text-seal_text c laws key_a.1 a.static_public 32 key_a.0
          (ap length paired.own_a ∙ laws.length-public_key a.static_private)
    where
      keyed : Bytes → Bytes → Noise × Bytes
      keyed secret public = mix_key c secret (mix_ephemeral c ephemeral_a (start_noise c public))

      key_a : Noise × Bytes
      key_a = keyed (c.scalarmult (clamp random) a.peer_public) a.peer_public

      secret : c.scalarmult b.static_private ephemeral_a ≡ c.scalarmult (clamp random) a.peer_public
      secret =
          laws.scalarmult_comm b.static_private (clamp random)
          ∙ ap (c.scalarmult (clamp random)) (sym (paired.peer ∙ paired.own_b))

      same_keys : keyed (c.scalarmult b.static_private ephemeral_a) b.static_public ≡ key_a
      same_keys =
          ap (λ s. keyed s b.static_public) secret
          ∙ ap (keyed (c.scalarmult (clamp random) a.peer_public)) (sym paired.peer)

  time-opened :
      index < 2 ^ 32
      → (let (n, key) =
            mix_key c
              (c.scalarmult b.static_private a.static_public)
              (seal_static c (begun c a random index)).0 in
          unseal_text c key 12 (slice 88 28 message) n
          ≡ some ((seal_timestamp c (with_static c a random index) unix_ns).0, tai64n unix_ns))
  unfolding seal_timestamp begin_initiation
  time-opened small =
      ap (λ q. unseal_text c q.1 12 (slice 88 28 message) q.0) (ap keyed secret)
      ∙ ap (λ x. unseal_text c key_a.1 12 x key_a.0) (message-Initiation small).time_part
      ∙ unseal_text-seal_text c laws key_a.1 (tai64n unix_ns) 12 key_a.0 (length-tai64n unix_ns)
    where
      keyed : Bytes → Noise × Bytes
      keyed secret = mix_key c secret (seal_static c (begun c a random index)).0

      key_a : Noise × Bytes
      key_a = keyed (c.scalarmult a.static_private a.peer_public)

      secret :
          c.scalarmult b.static_private a.static_public
          ≡ c.scalarmult a.static_private a.peer_public
      secret =
          ap (c.scalarmult b.static_private) paired.own_a
          ∙ laws.scalarmult_comm b.static_private a.static_private
          ∙ ap (c.scalarmult a.static_private) (sym (paired.peer ∙ paired.own_b))

  abbrev pub initiation_taken : Peer
  initiation_taken = record b {
    initiator_ephemeral = ephemeral_a;
    noise = (seal_timestamp c (with_static c a random index) unix_ns).0;
    peer_public = a.static_public;
    remote_index = index;
    handshake_in_progress = true;
  }

  pub consume_initiation-taken :
      index < 2 ^ 32 → consume_initiation_for_test c b message ≡ (initiation_taken, true)
  unfolding consume_initiation_for_test
  consume_initiation-taken small =
      if-false _ _ (checks (message-Initiation small).size (message-Initiation small).typed)
      ∙ consume_static-opened c b message ephemeral_a a.static_public _
          (message-Initiation small).ephemeral_part (static-opened small)
      ∙ consume_timestamp-opened c _ a.static_public message (tai64n unix_ns) _ index
          (message-Initiation small).sender (time-opened small)
    where
      checks :
          length message ≡ 148
          → get_or message 0 0 ≡ 1
          → (not (length message == 148) || not (get_or message 0 0 == 1)) ≡ false
      checks size typed = rw (size, typed) refl
