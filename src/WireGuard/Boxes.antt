-- ===== src/WireGuard/Boxes.antt =====
-- source/net/wg/wireguard.cpp: the parts of a handshake message, and texts sealed in it.
use torfoil.Prelude.{
  ℕ, ◌+◌, ◌^◌, ◌<◌, some, ◌∷◌, ◌++◌, ◌≡◌, refl, ap, ◌∙◌, arith, subst, length, take, drop, get_or,
  Bytes, length-append, replicate, append_assoc,
}
use torfoil.WireGuard.{Primitives, Noise, slice, seal_text, unseal_text}
use torfoil.WireGuard.Codec.{write_le32, read_le32, read_le32-write_le32}
use torfoil.WireGuard.Channel.{Laws, drop_add}
use torfoil.Prelude.{take-append, drop-append}

take-front : (n : ℕ) (xs ys : Bytes) → length xs ≡ n → take n (xs ++ ys) ≡ xs
take-front n xs ys h = subst (λ k. take k (xs ++ ys) ≡ xs) h (take-append xs ys)

drop-front : (n : ℕ) (xs ys : Bytes) → length xs ≡ n → drop n (xs ++ ys) ≡ ys
drop-front n xs ys h = subst (λ k. drop k (xs ++ ys) ≡ ys) h (drop-append xs ys)

module _ (c : Primitives) (laws : Laws c) where
  pub length-seal_text :
      (key text : Bytes) (n : Noise) → length (seal_text c key text n).1 ≡ length text + 16
  unfolding seal_text
  length-seal_text key text n = omega (
    arith,
    length-append (c.seal key (c.nonce 0) n.hash text).0 (c.seal key (c.nonce 0) n.hash text).1,
    laws.length-ciphertext key (c.nonce 0) n.hash text,
    laws.length-tag key (c.nonce 0) n.hash text,
  )

  -- A text sealed is read back, and both sides have the same hash.
  pub unseal_text-seal_text :
      (key text : Bytes) (size : ℕ) (n : Noise)
      → length text ≡ size
      → unseal_text c key size (seal_text c key text n).1 n
        ≡ some ((seal_text c key text n).0, text)
  unfolding seal_text unseal_text
  unseal_text-seal_text key text size n h =
      let sized = laws.length-ciphertext key (c.nonce 0) n.hash text ∙ h in
      rw
        (
          unseal_text,
          take-front size (c.seal key (c.nonce 0) n.hash text).0
              (c.seal key (c.nonce 0) n.hash text).1 sized,
          drop-front size (c.seal key (c.nonce 0) n.hash text).0
              (c.seal key (c.nonce 0) n.hash text).1 sized,
          laws.unseal-seal key (c.nonce 0) n.hash text,
        )
        refl

-- The parts of a first message, as the other side reads them.
pub record Initiation (msg : Bytes) (index : ℕ) (ephemeral static_box time_box : Bytes)
    : Type 0 where
  pub size : length msg ≡ 148
  pub typed : get_or msg 0 0 ≡ 1
  pub sender : read_le32 (drop 4 msg) ≡ index
  pub ephemeral_part : slice 8 32 msg ≡ ephemeral
  pub static_part : slice 40 48 msg ≡ static_box
  pub time_part : slice 88 28 msg ≡ time_box

abbrev pub initiation_bytes : ℕ → Bytes → Bytes → Bytes → Bytes → Bytes
initiation_bytes index ephemeral static_box time_box mac =
    (1 ∷ 0 ∷ 0 ∷ 0 ∷ (write_le32 index ++ (ephemeral ++ (static_box ++ time_box))))
    ++ (mac ++ replicate 16 0)

flatten : (e s t rest : Bytes) → (e ++ (s ++ t)) ++ rest ≡ e ++ (s ++ (t ++ rest))
flatten e s t rest = append_assoc e (s ++ t) rest ∙ ap (◌++◌ e) (append_assoc s t rest)

length-macs : (mac : Bytes) → length mac ≡ 16 → length (mac ++ replicate 16 0) ≡ 32
length-macs mac h = omega (arith, length-append mac (replicate 16 0))

pub initiation_bytes-Initiation :
    (index : ℕ) (ephemeral static_box time_box mac : Bytes)
    → index < 2 ^ 32
    → length ephemeral ≡ 32
    → length static_box ≡ 48
    → length time_box ≡ 28
    → length mac ≡ 16
    → Initiation
        (initiation_bytes index ephemeral static_box time_box mac)
        index
        ephemeral
        static_box
        time_box
unfolding write_le32
initiation_bytes-Initiation index ephemeral static_box time_box mac small e s t m = record {
  size = omega (
    arith,
    ap length flat,
    length-append ephemeral (static_box ++ (time_box ++ macs)),
    length-append static_box (time_box ++ macs),
    length-append time_box macs,
    length-macs mac m,
  );
  typed = refl;
  sender = read_le32-write_le32 index _ small;
  ephemeral_part = ap (take 32) flat ∙ take-front 32 ephemeral _ e;
  static_part = ap (take 48) behind_key ∙ take-front 48 static_box _ s;
  time_part =
      ap (take 28) (
        drop_add 32 48 ((ephemeral ++ (static_box ++ time_box)) ++ macs)
        ∙ ap (drop 48) behind_key
        ∙ drop-front 48 static_box _ s)
      ∙ take-front 28 time_box _ t;
}
  where
    macs : Bytes
    macs = mac ++ replicate 16 0

    flat :
        (ephemeral ++ (static_box ++ time_box)) ++ macs
        ≡ ephemeral ++ (static_box ++ (time_box ++ macs))
    flat = flatten ephemeral static_box time_box macs

    behind_key :
        drop 32 ((ephemeral ++ (static_box ++ time_box)) ++ macs) ≡ static_box ++ (time_box ++ macs)
    behind_key = ap (drop 32) flat ∙ drop-front 32 ephemeral _ e

-- The parts of an answer.
pub record Response (msg : Bytes) (index to : ℕ) (ephemeral tag : Bytes) : Type 0 where
  pub size : length msg ≡ 92
  pub typed : get_or msg 0 0 ≡ 2
  pub sender : read_le32 (drop 4 msg) ≡ index
  pub receiver : read_le32 (drop 8 msg) ≡ to
  pub ephemeral_part : slice 12 32 msg ≡ ephemeral
  pub tag_part : slice 44 16 msg ≡ tag

abbrev pub response_bytes : ℕ → ℕ → Bytes → Bytes → Bytes → Bytes
response_bytes index to ephemeral tag mac =
    (2 ∷ 0 ∷ 0 ∷ 0 ∷ (write_le32 index ++ (write_le32 to ++ (ephemeral ++ tag))))
    ++ (mac ++ replicate 16 0)

pub response_bytes-Response :
    (index to : ℕ) (ephemeral tag mac : Bytes)
    → index < 2 ^ 32
    → to < 2 ^ 32
    → length ephemeral ≡ 32
    → length tag ≡ 16
    → length mac ≡ 16
    → Response (response_bytes index to ephemeral tag mac) index to ephemeral tag
unfolding write_le32
response_bytes-Response index to ephemeral tag mac small small' e t m = record {
  size = omega (
    arith,
    ap length flat,
    length-append ephemeral (tag ++ macs),
    length-append tag macs,
    length-macs mac m,
  );
  typed = refl;
  sender = read_le32-write_le32 index _ small;
  receiver = read_le32-write_le32 to _ small';
  ephemeral_part = ap (take 32) flat ∙ take-front 32 ephemeral _ e;
  tag_part = ap (take 16) (ap (drop 32) flat ∙ drop-front 32 ephemeral _ e) ∙ take-front 16 tag _ t;
}
  where
    macs : Bytes
    macs = mac ++ replicate 16 0

    flat : (ephemeral ++ tag) ++ macs ≡ ephemeral ++ (tag ++ macs)
    flat = append_assoc ephemeral tag macs
