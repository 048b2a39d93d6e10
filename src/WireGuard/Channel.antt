-- ===== src/WireGuard/Channel.antt =====
-- source/net/wg/wireguard.cpp: a packet through encapsulate on one side and decapsulate on the other.
use torfoil.Prelude.{
  ℕ, zero, suc, ◌+◌, ◌-◌, ◌%◌, ◌^◌, ◌≤◌, ◌<◌, Bool, true, false, not, Option, none, some, [], ◌∷◌,
  ◌++◌, ◌≡◌, refl, sym, ap, subst, ◌∙◌, arith, leb, ltb, ◌==◌, if◌then◌else◌, length, take, drop,
  get_or, Bytes, append-nil, le→ltb, length-append, take-append, drop-append,
}
use native.Mathlib.Nat.{suc-add}
use torfoil.WireGuard.{Primitives, Peer, slice}
use torfoil.WireGuard.Codec.{write_le32, write_le, write_le64, read_le64, read_le64-write_le64}
use torfoil.WireGuard.Transport.{
  reject_after_ms, since, window_of, with_window, refuses, admit, open_packet, decapsulate,
  encapsulate,
}

-- What is relied on of the ciphers and of the key exchange.
pub record Laws (c : Primitives) : Type 0 where
  pub length-public_key : (k : Bytes) → length (c.public_key k) ≡ 32
  pub length-mac : (k text : Bytes) → length (c.blake2s_keyed k text) ≡ 16
  pub length-ciphertext : (k n along text : Bytes) → length (c.seal k n along text).0 ≡ length text
  pub length-tag : (k n along text : Bytes) → length (c.seal k n along text).1 ≡ 16
  pub unseal-seal :
      (k n along text : Bytes)
      → c.unseal k n along (c.seal k n along text).0 (c.seal k n along text).1 ≡ some text
  pub scalarmult_comm :
      (a b : Bytes) → c.scalarmult a (c.public_key b) ≡ c.scalarmult b (c.public_key a)

-- A data message.
abbrev frame : ℕ → ℕ → Bytes → Bytes → Bytes
frame index counter ciphertext tag =
    4 ∷ 0 ∷ 0 ∷ 0 ∷ (write_le32 index ++ (write_le64 counter ++ (ciphertext ++ tag)))

frame-rest :
    (index counter : ℕ) (ciphertext tag : Bytes)
    → drop 16 (frame index counter ciphertext tag) ≡ ciphertext ++ tag
unfolding write_le32 write_le
frame-rest index counter ciphertext tag = refl

frame-counter :
    (index counter : ℕ) (ciphertext tag : Bytes)
    → counter < 2 ^ 64
    → read_le64 (drop 8 (frame index counter ciphertext tag)) ≡ counter
unfolding write_le32
frame-counter index counter ciphertext tag h = read_le64-write_le64 counter (ciphertext ++ tag) h

length-frame :
    (index counter : ℕ) (ciphertext tag : Bytes)
    → length tag ≡ 16
    → length (frame index counter ciphertext tag) ≡ 32 + length ciphertext
unfolding write_le32 write_le
length-frame index counter ciphertext tag h = omega (arith, length-append ciphertext tag)

drop_nil : (n : ℕ) → drop {A = ℕ} n [] ≡ []
drop_nil zero = refl
drop_nil (suc n) = refl

pub drop_add : (m n : ℕ) (xs : Bytes) → drop (m + n) xs ≡ drop n (drop m xs)
drop_add zero n xs = ap (λ k. drop k xs) (omega arith)
drop_add (suc m) n [] = drop_nil (suc m + n) ∙ sym (drop_nil n)
drop_add (suc m) n (x ∷ xs) = ap (λ k. drop k (x ∷ xs)) (suc-add m n) ∙ drop_add m n xs

pub take-length : (xs : Bytes) (n : ℕ) → length xs ≡ n → take n xs ≡ xs
take-length xs n h =
    subst (λ k. take k xs ≡ xs) h (ap (take _) (sym (append-nil xs)) ∙ take-append xs [])

-- The parts of a data message, found from its length.
frame-parts :
    (index counter : ℕ) (ciphertext tag : Bytes)
    → length tag ≡ 16
    → (let msg = frame index counter ciphertext tag in
        let payload_len = length msg - 16 - 16 in
        (payload_len ≡ length ciphertext)
        × (slice 16 payload_len msg ≡ ciphertext)
        × (slice (16 + payload_len) 16 msg ≡ tag))
frame-parts index counter ciphertext tag h =
    let size = payload_size (length-frame index counter ciphertext tag h) in
    (
      size,
      rw (size, frame-rest index counter ciphertext tag) (take-append ciphertext tag),
      rw
          (
            size,
            drop_add 16 (length ciphertext) (frame index counter ciphertext tag),
            frame-rest index counter ciphertext tag,
            drop-append ciphertext tag,
          )
          (take-length tag 16 h),
    )
  where
    payload_size : {n m : ℕ} → n ≡ 32 + m → n - 16 - 16 ≡ m
    payload_size e = omega arith

pub if-false {ℓ} : {A : Type ℓ} {b : Bool} (x y : A) → b ≡ false → (if b then x else y) ≡ y
if-false x y h = rw h refl

decapsulate-open_packet :
    (c : Primitives) (b : Peer) (msg : Bytes) (out_capacity now_ms : ℕ)
    → b.established ≡ true
    → ltb (length msg) (16 + 16) ≡ false
    → get_or msg 0 0 ≡ 4
    → refuses (window_of b) (read_le64 (drop 8 msg)) ≡ none
    → decapsulate c b msg out_capacity now_ms
      ≡ open_packet c b msg (read_le64 (drop 8 msg)) out_capacity now_ms
unfolding decapsulate
decapsulate-open_packet c b msg out_capacity now_ms up long typed free =
    if-false _ _ (ap not up)
    ∙ if-false _ _ long
    ∙ if-false _ _ (ap (λ t. not (t == 4)) typed)
    ∙ ap
        (λ r. elim r as (λ _. Peer × Option Bytes) [
          | some e ↦ (record b { last_error = e }, none)
          | none ↦ open_packet c b msg (read_le64 (drop 8 msg)) out_capacity now_ms
        ])
        free

module _ (c : Primitives) (laws : Laws c) where
  abbrev sealed : Peer → Bytes → Bytes × Bytes
  sealed a packet = c.seal a.send_key (c.nonce a.send_counter) [] packet

  abbrev pub frame_of : Peer → Bytes → Bytes
  frame_of a packet = frame a.remote_index a.send_counter (sealed a packet).0 (sealed a packet).1

  pub encapsulate-frame :
      (a : Peer) (packet : Bytes) (out_capacity now_ms : ℕ)
      → a.established ≡ true
      → leb reject_after_ms (since now_ms a.established_at_ms) ≡ false
      → 32 + length packet ≤ out_capacity
      → encapsulate c a packet out_capacity now_ms ≡ (
        record a { send_counter = (a.send_counter + 1) % 2 ^ 64; last_send_ms = now_ms },
        some (frame_of a packet),
      )
  unfolding encapsulate
  encapsulate-frame a packet out_capacity now_ms up valid room =
      rw (up, valid, le→ltb (16 + length packet + 16) out_capacity (omega arith)) refl

  open_packet-frame :
      (a b : Peer) (packet : Bytes) (out_capacity now_ms : ℕ)
      → b.recv_key ≡ a.send_key
      → length packet ≤ out_capacity
      → open_packet c b (frame_of a packet) a.send_counter out_capacity now_ms ≡ (
        record (with_window b (admit (window_of b) a.send_counter)) { last_recv_ms = now_ms },
        some packet,
      )
  unfolding open_packet
  open_packet-frame a b packet out_capacity now_ms key room =
      let (size, ciphertext, tag) =
        frame-parts a.remote_index a.send_counter (sealed a packet).0 (sealed a packet).1
          (laws.length-tag a.send_key (c.nonce a.send_counter) [] packet) in
      rw
        (
          ciphertext,
          tag,
          opened,
          size,
          laws.length-ciphertext a.send_key (c.nonce a.send_counter) [] packet,
          le→ltb (length packet) out_capacity room,
        )
        refl
    where
      opened :
          c.unseal b.recv_key (c.nonce a.send_counter) [] (sealed a packet).0 (sealed a packet).1
          ≡ some packet
      opened = rw key (laws.unseal-seal a.send_key (c.nonce a.send_counter) [] packet)

  pub decapsulate-frame :
      (a b : Peer) (packet : Bytes) (out_capacity now_ms : ℕ)
      → b.established ≡ true
      → b.recv_key ≡ a.send_key
      → a.send_counter < 2 ^ 64
      → refuses (window_of b) a.send_counter ≡ none
      → length packet ≤ out_capacity
      → decapsulate c b (frame_of a packet) out_capacity now_ms ≡ (
        record (with_window b (admit (window_of b) a.send_counter)) { last_recv_ms = now_ms },
        some packet,
      )
  decapsulate-frame a b packet out_capacity now_ms up key small free room =
      decapsulate-open_packet c b (frame_of a packet) out_capacity now_ms up long refl
        (ap (refuses (window_of b)) counter ∙ free)
      ∙ ap (λ n. open_packet c b (frame_of a packet) n out_capacity now_ms) counter
      ∙ open_packet-frame a b packet out_capacity now_ms key room
    where
      long : ltb (length (frame_of a packet)) (16 + 16) ≡ false
      long = le→ltb 32 (length (frame_of a packet)) (
          omega (
            arith,
            length-frame a.remote_index a.send_counter (sealed a packet).0 (sealed a packet).1
                (laws.length-tag a.send_key (c.nonce a.send_counter) [] packet),
          ))

      counter : read_le64 (drop 8 (frame_of a packet)) ≡ a.send_counter
      counter =
          frame-counter a.remote_index a.send_counter (sealed a packet).0 (sealed a packet).1 small
