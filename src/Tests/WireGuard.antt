-- ===== src/Tests/WireGuard.antt =====
-- Runs of the tunnel with small stand-ins for the primitives: a key is known by its first byte.
use torfoil.Prelude.{
  ℕ, ◌+◌, true, false, none, some, List, [], ◌∷◌, ◌≡◌, refl, ap, arith, ◌==◌, ==_iff, if◌then◌else◌,
  length, get_or, replicate, map, Bytes, codes, All, IsByte, ◌<◌, ◌↔◌,
}
use torfoil.WireGuard.{Primitives, Peer, WireError, zero_key, clamp, configure}
use torfoil.WireGuard.Transport.{Window, refuses, admit, decapsulate}
use torfoil.WireGuard.Channel.{Laws}
use torfoil.WireGuard.Window.{Knows, admit-Knows, refuses-none}
use torfoil.WireGuard.Replay.{let_through, let_through-NoneTwice, Arrival, IsMessage, NoneTwice}
use torfoil.WireGuard.Steps.{Paired}
use torfoil.WireGuard.Agreement.{Session}
use torfoil.WireGuard.Tells.{Seen}
use torfoil.WireGuard.Transfer.{transfer}
use torfoil.WireGuard.Keys.{key_to_base64, key_from_base64}
use torfoil.WireGuard.Keys.RoundTrip.{key_from_base64-key_to_base64}
use torfoil.WireGuard.Session.{
  Draws, NonDegenerate, shake_hands, shake_hands-Session, shake_hands-transfer,
}

abbrev first_byte : Bytes → ℕ
first_byte b = get_or b 0 0

abbrev wide : ℕ → ℕ → Bytes
wide n first = first ∷ replicate n 1

abbrev check_of : Bytes → Bytes → Bytes → Bytes → ℕ
check_of key nonce along text =
    first_byte key + first_byte nonce + first_byte along + first_byte text

abbrev stand_ins : Primitives
stand_ins = record {
  blake2s = λ text. (length text + first_byte text) ∷ [];
  blake2s_keyed = λ key text. wide 15 (first_byte key + length text);
  hmac = λ key text. (first_byte key + first_byte text + length text) ∷ [];
  scalarmult = λ key point. wide 31 (first_byte key + first_byte point);
  public_key = λ key. wide 31 (first_byte key);
  nonce = λ n. n ∷ [];
  seal = λ key nonce along text. (text, wide 15 (check_of key nonce along text));
  unseal = λ key nonce along text tag.
      (if first_byte tag == check_of key nonce along text then some text else none);
}

stand_ins-Laws : Laws stand_ins
stand_ins-Laws = record {
  length-public_key = λ k. refl;
  length-mac = λ k text. refl;
  length-ciphertext = λ k n along text. refl;
  length-tag = λ k n along text. refl;
  unseal-seal = λ k n along text. rw ((==_iff (check_of k n along text) _).1 refl) refl;
  scalarmult_comm = λ a b. ap (λ n. wide 31 n) (omega arith);
}

abbrev blank : Peer
blank = record {
  static_private = zero_key;
  static_public = zero_key;
  peer_public = zero_key;
  preshared = zero_key;
  noise = record { chaining_key = []; hash = [] };
  ephemeral_private = zero_key;
  ephemeral_public = zero_key;
  initiator_ephemeral = zero_key;
  local_index = 0;
  remote_index = 0;
  send_key = zero_key;
  recv_key = zero_key;
  send_counter = 0;
  have_recv = false;
  recv_highest = 0;
  recv_window = 0;
  established = false;
  handshake_in_progress = false;
  established_at_ms = 0;
  last_send_ms = 0;
  last_recv_ms = 0;
  last_handshake_attempt_ms = 0;
  last_error = WireError.no_error;
}

abbrev key_a : Bytes
key_a = wide 31 8

abbrev key_b : Bytes
key_b = wide 31 16

abbrev side_a : Peer
side_a = configure stand_ins blank key_a (stand_ins.public_key key_b) none

abbrev side_b : Peer
side_b = configure stand_ins blank key_b zero_key none

abbrev draws : Draws
draws = record {
  random_a = wide 31 24;
  index_a = 7;
  random_b = wide 31 40;
  index_b = 9;
  now_ms = 1000;
  unix_ns = 5;
}

sides-Paired : Paired stand_ins side_a side_b
unfolding configure
sides-Paired = record { peer = refl; own_a = refl; own_b = refl; shared = refl }

draws-NonDegenerate : NonDegenerate stand_ins side_a draws
unfolding configure clamp
draws-NonDegenerate = record {
  server_key = refl;
  static_secret = refl;
  ephemeral = refl;
  cross_secret = refl;
}

shake_hands-Session_example :
    (ends : Peer × Peer) × (shake_hands stand_ins side_a side_b draws ≡ some ends)
    × Session 1000 ends.0 ends.1
shake_hands-Session_example =
    shake_hands-Session stand_ins stand_ins-Laws side_a side_b draws sides-Paired
      draws-NonDegenerate (omega arith) (omega arith)

abbrev two_packets : List Bytes
two_packets = (1 ∷ 2 ∷ 3 ∷ []) ∷ [] ∷ []

shake_hands-transfer_example :
    (ends : Peer × Peer) × (shake_hands stand_ins side_a side_b draws ≡ some ends)
    × (transfer stand_ins ends.0 ends.1 64 1000 two_packets ≡ map some two_packets)
shake_hands-transfer_example =
    shake_hands-transfer stand_ins stand_ins-Laws side_a side_b draws sides-Paired
      draws-NonDegenerate (omega arith) (omega arith) 64 two_packets
      (omega arith, (omega arith, tt)) (omega arith)

-- A side that can receive, and a message of two bytes with counter 3.
abbrev open_side : Peer
open_side = record side_a { established = true }

abbrev arrival : Arrival
arrival = record {
  msg =
      4 ∷ 0 ∷ 0 ∷ 0 ∷ 0 ∷ 0 ∷ 0 ∷ 0 ∷ 3 ∷ 0 ∷ 0 ∷ 0 ∷ 0 ∷ 0 ∷ 0 ∷ 0 ∷ 9 ∷ 8 ∷ 12 ∷ 1 ∷ 1 ∷ 1 ∷ 1 ∷ 1
      ∷ 1 ∷ 1 ∷ 1 ∷ 1 ∷ 1 ∷ 1 ∷ 1 ∷ 1 ∷ 1 ∷ 1 ∷ [];
  out_capacity = 100;
  now_ms = 7;
}

-- The first of two copies is let through.
let_through_run : let_through stand_ins open_side (arrival ∷ arrival ∷ []) ≡ 3 ∷ []
unfolding decapsulate configure
let_through_run = refl

arrival-IsMessage : IsMessage arrival
arrival-IsMessage = ground arith

let_through-NoneTwice_example : NoneTwice (let_through stand_ins open_side (arrival ∷ arrival ∷ []))
unfolding configure
let_through-NoneTwice_example =
    let_through-NoneTwice stand_ins open_side (arrival ∷ arrival ∷ []) refl
      (arrival-IsMessage, (arrival-IsMessage, tt))

abbrev empty_window : Window
empty_window = record { have_recv = false; highest = 0; bits = 0 }

empty-Knows : Knows empty_window []
empty-Knows = record {
  fresh = λ _. refl;
  below = λ _ n s. absurd s;
  tells = λ begun. absurd (cc);
  fits = λ begun. absurd (cc);
}

refuses-none_example :
    (refuses (admit empty_window 100) 90 ≡ none) ↔ ((100 < 90 + 64) × (Seen 90 (100 ∷ []) → ⊥))
unfolding admit
refuses-none_example =
    refuses-none (admit empty_window 100) (100 ∷ []) 90 (omega arith) refl
      (admit-Knows empty_window [] 100 (omega arith) empty-Knows)

key_from_base64-key_to_base64_example : key_from_base64 (key_to_base64 key_a) ≡ some key_a
key_from_base64-key_to_base64_example = key_from_base64-key_to_base64 key_a refl key_a-bytes
  where
    key_a-bytes : All IsByte key_a
    key_a-bytes = ground arith

key_to_base64_run : key_to_base64 key_a ≡ codes "CAEBAQEBAQEBAQEBAQEBAQEBAQEBAQEBAQEBAQEBAQE="
unfolding key_to_base64
key_to_base64_run = refl
