-- ===== src/WireGuard.antt =====
-- source/net/wg/wireguard.cpp and include/net/wg/wireguard.hpp: the state of class Peer and the steps
-- that its operations share. The cryptographic primitives are the fields of a parameter. A buffer that
-- the source fills at fixed places is the list of its parts; where the source overwrites secrets on its
-- stack before it returns, nothing is left to write.
pub mod Boxes
pub mod Channel
pub mod Codec
pub mod Handshake
pub mod Shifts
pub mod Keys
pub mod Replay
pub mod Steps
pub mod Tells
pub mod Transfer
pub mod Initiation
pub mod Agreement
pub mod Session
pub mod Transport
pub mod Window
use torfoil.Prelude.{
  ℕ, ◌+◌, ◌-◌, ◌*◌, ◌/◌, ◌%◌, ◌^◌, Bool, true, false, ◌&&◌, Option, none, some, [], ◌∷◌, ◌++◌, ◌==◌,
  leb, ltb, if◌then◌else◌, take, drop, set, get_or, Bytes, codes,
}

-- blake2s.h, x25519.h and chacha20poly1305.h. `seal` gives a ciphertext and a tag, `unseal` a
-- plaintext if the tag is right; both take a key, a nonce and the data that goes along.
pub record Primitives : Type 0 where
  pub blake2s : Bytes → Bytes
  pub blake2s_keyed : Bytes → Bytes → Bytes
  pub hmac : Bytes → Bytes → Bytes
  pub scalarmult : Bytes → Bytes → Bytes
  pub public_key : Bytes → Bytes
  pub nonce : ℕ → Bytes
  pub seal : Bytes → Bytes → Bytes → Bytes → Bytes × Bytes
  pub unseal : Bytes → Bytes → Bytes → Bytes → Bytes → Option Bytes

-- The messages of `last_error_`.
pub data WireError : Type 0 where
  no_error degenerate_server_key degenerate_static_secret : WireError
  response_size message_type no_initiation other_session : WireError
  degenerate_ephemeral degenerate_cross_secret response_forged : WireError
  not_established keys_expired packet_old packet_replayed packet_forged : WireError

-- `chaining_key_` and `hash_`.
pub record Noise : Type 0 where
  pub chaining_key : Bytes
  pub hash : Bytes

pub record Peer : Type 0 where
  pub static_private : Bytes
  pub static_public : Bytes
  pub peer_public : Bytes
  pub preshared : Bytes
  pub noise : Noise
  pub ephemeral_private : Bytes
  pub ephemeral_public : Bytes
  pub initiator_ephemeral : Bytes
  pub local_index : ℕ
  pub remote_index : ℕ
  pub send_key : Bytes
  pub recv_key : Bytes
  pub send_counter : ℕ
  pub have_recv : Bool
  pub recv_highest : ℕ
  pub recv_window : ℕ
  pub established : Bool
  pub handshake_in_progress : Bool
  pub established_at_ms : ℕ
  pub last_send_ms : ℕ
  pub last_recv_ms : ℕ
  pub last_handshake_attempt_ms : ℕ
  pub last_error : WireError

-- The bytes of `msg` from a place on.
abbrev pub slice : ℕ → ℕ → Bytes → Bytes
slice from n msg = take n (drop from msg)

-- `x25519_is_zero`.
abbrev pub is_zero_key : Bytes → Bool
is_zero_key [] = true
is_zero_key (c ∷ key) = c == 0 && is_zero_key key

-- RFC 7748: `out[0] &= 248; out[31] &= 127; out[31] |= 64`, on bytes.
unfoldable pub clamp : Bytes → Bytes
clamp random =
    let low = set random 0 (get_or random 0 0 / 8 * 8) in set low 31 (get_or low 31 0 % 64 + 64)

abbrev pub zero_key : Bytes
zero_key =
    0 ∷ 0 ∷ 0 ∷ 0 ∷ 0 ∷ 0 ∷ 0 ∷ 0 ∷ 0 ∷ 0 ∷ 0 ∷ 0 ∷ 0 ∷ 0 ∷ 0 ∷ 0 ∷ 0 ∷ 0 ∷ 0 ∷ 0 ∷ 0 ∷ 0 ∷ 0 ∷ 0
    ∷ 0 ∷ 0 ∷ 0 ∷ 0 ∷ 0 ∷ 0 ∷ 0 ∷ 0 ∷ []

unfoldable pub reset_handshake : Peer → Peer
reset_handshake p = record p {
  established = false;
  handshake_in_progress = false;
  send_counter = 0;
  have_recv = false;
  recv_highest = 0;
  recv_window = 0;
  send_key = zero_key;
  recv_key = zero_key;
}

module _ (c : Primitives) where
  abbrev pub hash_of : Bytes → Bytes → Bytes
  hash_of a b = c.blake2s (a ++ b)

  -- The three outputs.
  unfoldable pub kdf : Bytes → Bytes → Bytes × Bytes × Bytes
  kdf chaining_key input =
      let prk = c.hmac chaining_key input in
      let t1 = c.hmac prk (1 ∷ []) in
      let t2 = c.hmac prk (t1 ++ 2 ∷ []) in (t1, t2, c.hmac prk (t2 ++ 3 ∷ []))

  abbrev pub initial_chaining_key : Bytes
  initial_chaining_key = hash_of (codes "Noise_IKpsk2_25519_ChaChaPoly_BLAKE2s") []

  abbrev pub mix_hash : Bytes → Noise → Noise
  mix_hash text n = record n { hash = hash_of n.hash text }

  -- The state before the first message to the owner of a public key.
  unfoldable pub start_noise : Bytes → Noise
  start_noise responder_public = mix_hash responder_public (record {
    chaining_key = initial_chaining_key;
    hash = hash_of initial_chaining_key (codes "WireGuard v1 zx2c4 Jason@zx2c4.com");
  })

  -- `kdf(chaining_key_, input, …, chaining_key_, nullptr, nullptr)`.
  unfoldable pub mix_chain : Bytes → Noise → Noise
  unfolding kdf
  mix_chain input n = record n { chaining_key = (kdf n.chaining_key input).0 }

  -- An ephemeral key goes into both.
  unfoldable pub mix_ephemeral : Bytes → Noise → Noise
  unfolding mix_chain
  mix_ephemeral key n = mix_hash key (mix_chain key n)

  -- A key for one message.
  unfoldable pub mix_key : Bytes → Noise → Noise × Bytes
  unfolding kdf
  mix_key input n =
      let (chain, key, _) = kdf n.chaining_key input in (record n { chaining_key = chain }, key)

  -- The preshared key: `tau` goes into the hash, the third output is the key.
  unfoldable pub mix_preshared : Bytes → Noise → Noise × Bytes
  unfolding kdf
  mix_preshared preshared n =
      let (chain, tau, key) = kdf n.chaining_key preshared in
      (mix_hash tau (record n { chaining_key = chain }), key)

  -- A text under a key and the hash so far; ciphertext and tag go into the hash.
  unfoldable pub seal_text : Bytes → Bytes → Noise → Noise × Bytes
  seal_text key text n =
      let (ciphertext, tag) = c.seal key (c.nonce 0) n.hash text in
      let box = ciphertext ++ tag in (mix_hash box n, box)

  -- `size` bytes and a tag of 16, taken from a message.
  unfoldable pub unseal_text : Bytes → ℕ → Bytes → Noise → Option (Noise × Bytes)
  unseal_text key size box n =
      elim (c.unseal key (c.nonce 0) n.hash (take size box) (drop size box)) [
        | none ↦ none
        | some text ↦ some (mix_hash box n, text)
      ]

  unfoldable pub compute_mac1 : Bytes → Bytes → Bytes
  compute_mac1 peer_public msg = c.blake2s_keyed (c.blake2s (codes "mac1----" ++ peer_public)) msg

  unfoldable pub configure : Peer → Bytes → Bytes → Option Bytes → Peer
  unfolding reset_handshake
  configure p private_key peer_public preshared = reset_handshake (record p {
    static_private = private_key;
    static_public = c.public_key private_key;
    peer_public = peer_public;
    preshared = elim preshared [ none ↦ zero_key | some key ↦ key ];
  })

  -- The keys of the session, and an empty window.
  unfoldable pub derive_transport_keys : Bool → Peer → Peer
  unfolding kdf
  derive_transport_keys initiator p =
      let (first, second, _) = kdf p.noise.chaining_key [] in
      record p {
        send_key = if initiator then first else second;
        recv_key = if initiator then second else first;
        send_counter = 0;
        have_recv = false;
        recv_highest = 0;
        recv_window = 0;
        noise = record p.noise { chaining_key = zero_key };
        ephemeral_private = zero_key;
      }
