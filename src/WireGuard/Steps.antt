-- ===== src/WireGuard/Steps.antt =====
-- source/net/wg/wireguard.cpp: what make_initiation makes, and what reading it comes to, step by step.
use torfoil.Prelude.{
  ℕ, Bool, true, false, none, some, ◌++◌, ◌≡◌, refl, ap, ◌∙◌, replicate, length, drop, Bytes,
}
use torfoil.Bytes.BigEndian.{wr_be32, wr_be64}
use torfoil.WireGuard.{
  Primitives, Noise, Peer, slice, is_zero_key, clamp, start_noise, mix_ephemeral, mix_key,
  unseal_text, compute_mac1,
}
use torfoil.WireGuard.Codec.{read_le32, tai64n}
use torfoil.WireGuard.Handshake.{
  begin_initiation, seal_static, seal_timestamp, initiation_body, make_initiation, consume_static,
  consume_timestamp,
}
use torfoil.WireGuard.Channel.{if-false}

-- Two sides that know each other's keys.
pub record Paired (c : Primitives) (a b : Peer) : Type 0 where
  pub peer : a.peer_public ≡ b.static_public
  pub own_a : a.static_public ≡ c.public_key a.static_private
  pub own_b : b.static_public ≡ c.public_key b.static_private
  pub shared : a.preshared ≡ b.preshared

pub length-tai64n : (unix_ns : ℕ) → length (tai64n unix_ns) ≡ 12
unfolding tai64n wr_be32 wr_be64
length-tai64n unix_ns = refl

module _ (c : Primitives) where
  -- What make_initiation makes of its parts.
  abbrev pub begun : Peer → Bytes → ℕ → Peer
  begun a random index = begin_initiation c a random index

  abbrev pub with_static : Peer → Bytes → ℕ → Peer
  with_static a random index = record (begun a random index) {
    noise = (seal_static c (begun a random index)).0;
  }

  abbrev pub initiation_of : Peer → Bytes → ℕ → ℕ → Bytes
  initiation_of a random index unix_ns =
      let p = with_static a random index in
      let body =
        initiation_body c p (seal_static c (begun a random index)).1
          (seal_timestamp c p unix_ns).1 in
      body ++ (compute_mac1 c p.peer_public body ++ replicate 16 0)

  abbrev pub initiated : Peer → Bytes → ℕ → ℕ → ℕ → Peer
  initiated a random index now_ms unix_ns = record (with_static a random index) {
    noise = (seal_timestamp c (with_static a random index) unix_ns).0;
    handshake_in_progress = true;
    last_handshake_attempt_ms = now_ms;
  }

  -- Where no secret is degenerate.
  pub make_initiation-made :
      (a : Peer) (random : Bytes) (index now_ms unix_ns : ℕ)
      → is_zero_key (c.scalarmult (clamp random) a.peer_public) ≡ false
      → is_zero_key (c.scalarmult a.static_private a.peer_public) ≡ false
      → make_initiation c a random index now_ms unix_ns
        ≡ (initiated a random index now_ms unix_ns, some (initiation_of a random index unix_ns))
  unfolding make_initiation
  make_initiation-made a random index now_ms unix_ns first second =
      if-false _ _ first ∙ if-false _ _ second

  pub consume_static-opened :
      (b : Peer) (msg ephemeral static : Bytes) (n' : Noise)
      → slice 8 32 msg ≡ ephemeral
      → (let (n, key) =
            mix_key c
              (c.scalarmult b.static_private ephemeral)
              (mix_ephemeral c ephemeral (start_noise c b.static_public)) in
          unseal_text c key 32 (slice 40 48 msg) n ≡ some (n', static))
      → consume_static c b msg
        ≡ consume_timestamp c (record b { initiator_ephemeral = ephemeral; noise = n' }) static msg
  unfolding consume_static
  consume_static-opened b msg ephemeral static n' part opened =
      ap from_key part
      ∙ ap
          (λ o. elim o as (λ _. Peer × Bool) [
            | none ↦
                (record b { initiator_ephemeral = ephemeral; noise = (keyed ephemeral).0 }, false)
            | some (n, s) ↦
                consume_timestamp c (record b { initiator_ephemeral = ephemeral; noise = n }) s msg
          ])
          opened
    where
      keyed : Bytes → Noise × Bytes
      keyed e =
          mix_key c (c.scalarmult b.static_private e)
            (mix_ephemeral c e (start_noise c b.static_public))

      from_key : Bytes → Peer × Bool
      from_key e = elim (unseal_text c (keyed e).1 32 (slice 40 48 msg) (keyed e).0) [
        | none ↦ (record b { initiator_ephemeral = e; noise = (keyed e).0 }, false)
        | some (n, s) ↦ consume_timestamp c (record b { initiator_ephemeral = e; noise = n }) s msg
      ]

  pub consume_timestamp-opened :
      (b : Peer) (static msg stamp : Bytes) (n' : Noise) (index : ℕ)
      → read_le32 (drop 4 msg) ≡ index
      → (let (n, key) = mix_key c (c.scalarmult b.static_private static) b.noise in
          unseal_text c key 12 (slice 88 28 msg) n ≡ some (n', stamp))
      → consume_timestamp c b static msg ≡ (
        record b {
          noise = n';
          peer_public = static;
          remote_index = index;
          handshake_in_progress = true;
        },
        true,
      )
  unfolding consume_timestamp
  consume_timestamp-opened b static msg stamp n' index part opened =
      ap
        (λ o. elim o as (λ _. Peer × Bool) [
          | none ↦ (
            record b { noise = (mix_key c (c.scalarmult b.static_private static) b.noise).0 },
            false,
          )
          | some (n, t) ↦ (
            record b {
              noise = n;
              peer_public = static;
              remote_index = read_le32 (drop 4 msg);
              handshake_in_progress = true;
            },
            true,
          )
        ])
        opened
      ∙ ap
          (λ i. (
            record b {
              noise = n';
              peer_public = static;
              remote_index = i;
              handshake_in_progress = true;
            },
            true,
          ))
          part
