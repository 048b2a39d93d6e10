-- ===== src/WireGuard/Transport.antt =====
-- source/net/wg/wireguard.cpp: the packets of an established session, its timers, and the window
-- against replay. Times and counters are `uint64_t`: differences wrap.
use torfoil.Prelude.{
  ℕ, ◌+◌, ◌-◌, ◌*◌, ◌/◌, ◌%◌, ◌^◌, Bool, true, false, not, ◌&&◌, ◌||◌, Option, none, some, [], ◌∷◌,
  ◌++◌, ◌==◌, leb, ltb, if◌then◌else◌, length, drop, get_or, Bytes,
}
use torfoil.WireGuard.{Primitives, WireError, Peer, slice}
use torfoil.WireGuard.Codec.{write_le32, write_le, write_le64, read_le, read_le64}

abbrev pub rekey_after_ms : ℕ
rekey_after_ms = 120 * 1000

abbrev pub reject_after_ms : ℕ
reject_after_ms = 180 * 1000

abbrev pub keepalive_ms : ℕ
keepalive_ms = 25 * 1000

abbrev pub rekey_timeout_ms : ℕ
rekey_timeout_ms = 5 * 1000

abbrev pub data_header_size : ℕ
data_header_size = 16

abbrev pub tag_len : ℕ
tag_len = 16

-- `now_ms - then_ms` in 64 bits.
abbrev pub since : ℕ → ℕ → ℕ
since now_ms then_ms = (now_ms + 2 ^ 64 - then_ms) % 2 ^ 64

unfoldable pub needs_handshake : Peer → ℕ → Bool
needs_handshake p now_ms =
    if not p.established
    then leb rekey_timeout_ms (since now_ms p.last_handshake_attempt_ms)
      || p.last_handshake_attempt_ms == 0
    else leb rekey_after_ms (since now_ms p.established_at_ms)

unfoldable pub needs_keepalive : Peer → ℕ → Bool
needs_keepalive p now_ms = p.established && leb keepalive_ms (since now_ms p.last_send_ms)

abbrev pub note_handshake_sent : Peer → ℕ → Peer
note_handshake_sent p now_ms = record p { last_handshake_attempt_ms = now_ms }

-- The window: whether something was received, the highest counter, and a bit for each counter from
-- it down.
pub record Window : Type 0 where
  pub have_recv : Bool
  pub highest : ℕ
  pub bits : ℕ

abbrev pub window_of : Peer → Window
window_of p = record { have_recv = p.have_recv; highest = p.recv_highest; bits = p.recv_window }

abbrev pub bit_set : ℕ → ℕ → Bool
bit_set bits shift = bits / 2 ^ shift % 2 == 1

-- The refusal of a counter, if it is refused.
unfoldable pub refuses : Window → ℕ → Option WireError
refuses w counter =
    if w.have_recv
    then (if leb ((counter + 64) % 2 ^ 64) w.highest
        then some WireError.packet_old
        else if leb counter w.highest && bit_set w.bits (w.highest - counter)
        then some WireError.packet_replayed
        else none)
    else none

-- `bits | 1 << shift`.
abbrev pub set_shifted : ℕ → ℕ → ℕ
set_shifted bits shift = if bit_set bits shift then bits else bits + 2 ^ shift

-- `bits << shift | 1`, where the shift is not 0.
abbrev pub slide : ℕ → ℕ → ℕ
slide bits shift = bits * 2 ^ shift % 2 ^ 64 + 1

-- A counter that was received and proved authentic.
unfoldable pub admit : Window → ℕ → Window
admit w counter =
    if not w.have_recv
    then record { have_recv = true; highest = counter; bits = 1 }
    else if ltb w.highest counter
    then (let shift = counter - w.highest in
        record w { highest = counter; bits = if leb 64 shift then 1 else slide w.bits shift })
    else record w { bits = set_shifted w.bits (w.highest - counter) }

abbrev pub with_window : Peer → Window → Peer
with_window p w = record p {
  have_recv = w.have_recv;
  recv_highest = w.highest;
  recv_window = w.bits;
}

module _ (c : Primitives) where
  -- The message, if there is one.
  unfoldable pub encapsulate : Peer → Bytes → ℕ → ℕ → Peer × Option Bytes
  unfolding write_le32 write_le
  encapsulate p packet out_capacity now_ms =
      let (ciphertext, tag) = c.seal p.send_key (c.nonce p.send_counter) [] packet in
      if not p.established
      then (record p { last_error = WireError.not_established }, none)
      else if leb reject_after_ms (since now_ms p.established_at_ms)
      then (record p { last_error = WireError.keys_expired; established = false }, none)
      else if ltb out_capacity (data_header_size + length packet + tag_len)
      then (p, none)
      else (
        record p { send_counter = (p.send_counter + 1) % 2 ^ 64; last_send_ms = now_ms },
        some (
            4
            ∷ 0
            ∷ 0
            ∷ 0
            ∷ (write_le32 p.remote_index ++ (write_le64 p.send_counter ++ (ciphertext ++ tag)))),
      )

  -- Behind the checks of the window.
  unfoldable pub open_packet : Peer → Bytes → ℕ → ℕ → ℕ → Peer × Option Bytes
  unfolding admit
  open_packet p msg counter out_capacity now_ms =
      let payload_len = length msg - data_header_size - tag_len in
      if ltb out_capacity payload_len
      then (p, none)
      else elim (c.unseal p.recv_key (c.nonce counter) [] (slice 16 payload_len msg)
          (slice (16 + payload_len) 16 msg)) [
            | none ↦ (record p { last_error = WireError.packet_forged }, none)
            | some packet ↦ (
              record (with_window p (admit (window_of p) counter)) { last_recv_ms = now_ms },
              some packet,
            )
          ]

  unfoldable pub decapsulate : Peer → Bytes → ℕ → ℕ → Peer × Option Bytes
  unfolding refuses open_packet read_le
  decapsulate p msg out_capacity now_ms =
      let counter = read_le64 (drop 8 msg) in
      if not p.established
      then (p, none)
      else if ltb (length msg) (data_header_size + tag_len)
      then (p, none)
      else if not (get_or msg 0 0 == 4)
      then (p, none)
      else elim (refuses (window_of p) counter) [
        | some e ↦ (record p { last_error = e }, none)
        | none ↦ open_packet p msg counter out_capacity now_ms
      ]
