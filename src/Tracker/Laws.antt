-- ===== src/Tracker/Laws.antt =====
-- source/bt/tracker.cpp: what is written is read back.
use torfoil.Prelude.{
  ℕ, ◌^◌, ◌≤◌, ◌<◌, ◌≡◌, refl, Bool, true, List, [], ◌∷◌, ◌++◌, ltb, le→ltb, ◌==◌, ==_iff, not,
  false, ◌&&◌, if◌then◌else◌, All, All-take, Bool-cases, inl, inr, ltb→lt, ltb→ge, Bytes, length,
  take, drop, zero, suc, arith, ap, ◌∙◌,
}
use Prim.Native.Nat.{max}
use torfoil.Prelude.Fail.{Try, fail, done}
use torfoil.Bytes.BigEndian.{rd_be16, rd_be32, wr_be16, wr_be32, rd_be-wr_be}
use torfoil.Tracker.{
  Endpoint, is_valid, AnnounceResult, TrackerError, parse_compact_peers, at_least_minute,
  read_reply, is_reply, received, read_buffer, is_answer,
}

-- The compact form of a list of peers.
abbrev pub compact : List Endpoint → Bytes
compact [] = []
compact (ep ∷ peers) = wr_be32 ep.ipv4 ++ (wr_be16 ep.port ++ compact peers)

abbrev pub IsEndpoint : Endpoint → Type 0
IsEndpoint ep = (is_valid ep ≡ true) × (ep.ipv4 < 2 ^ 32) × (ep.port < 2 ^ 16)

-- Peers in the compact form are read back, in order.
pub parse_compact_peers-compact :
    (peers : List Endpoint) → All IsEndpoint peers → parse_compact_peers (compact peers) ≡ peers
unfolding parse_compact_peers wr_be32 wr_be16
parse_compact_peers-compact [] h = refl
parse_compact_peers-compact (ep ∷ peers) h =
    let found = λ (i p : ℕ).
      (let it : Endpoint = record { ipv4 = i; port = p } in
        if is_valid it
        then it ∷ parse_compact_peers (compact peers)
        else parse_compact_peers (compact peers)) in
    let (port, ip, _) = rd_be-wr_be ep.port ep.ipv4 0 [] h.0.2 h.0.1 (omega arith) in
    ap (λ i. found i (rd_be16 (wr_be16 ep.port))) ip
    ∙ ap (λ p. found ep.ipv4 p) port
    ∙ ap
        (λ b.
          if b
          then ep ∷ parse_compact_peers (compact peers)
          else parse_compact_peers (compact peers))
        h.0.0
    ∙ ap (◌∷◌ ep) (parse_compact_peers-compact peers h.1)

-- A datagram that answers the second one.
abbrev pub reply_of : ℕ → AnnounceResult → Bytes
reply_of tid r =
    wr_be32 1
    ++ (wr_be32 tid
        ++ (wr_be32 r.interval_s ++ (wr_be32 r.leechers ++ (wr_be32 r.seeders ++ compact r.peers))))

rd_be32-back : (n : ℕ) (rest : Bytes) → n < 2 ^ 32 → rd_be32 (wr_be32 n ++ rest) ≡ n
rd_be32-back n rest h = (rd_be-wr_be 0 n 0 rest (omega arith) h (omega arith)).1

abbrev pub Fits : AnnounceResult → Type 0
Fits r =
    (r.interval_s < 2 ^ 32) × (r.leechers < 2 ^ 32) × (r.seeders < 2 ^ 32) × All IsEndpoint r.peers

-- The bytes of `n` peers.
abbrev bytes_of : ℕ → ℕ
bytes_of zero = 0
bytes_of (suc n) = suc (suc (suc (suc (suc (suc (bytes_of n))))))

-- Cut behind the peer with number `n`, the compact form is that of the peers up to it.
take-compact :
    (n : ℕ) (peers : List Endpoint) → take (bytes_of n) (compact peers) ≡ compact (take n peers)
unfolding wr_be32 wr_be16
take-compact zero peers = refl
take-compact (suc n) [] = refl
take-compact (suc n) (ep ∷ peers) =
    ap (λ rest. wr_be32 ep.ipv4 ++ (wr_be16 ep.port ++ rest)) (take-compact n peers)

-- What fits into the buffer of an answer.
abbrev pub cut_to_buffer : AnnounceResult → AnnounceResult
cut_to_buffer r = record r { peers = take 338 r.peers }

received-reply_of :
    (tid : ℕ) (r : AnnounceResult) → received (reply_of tid r) ≡ reply_of tid (cut_to_buffer r)
unfolding wr_be32
received-reply_of tid r =
    ap
      (λ rest.
        wr_be32 1
        ++ (wr_be32 tid
            ++ (wr_be32 r.interval_s ++ (wr_be32 r.leechers ++ (wr_be32 r.seeders ++ rest)))))
      (take-compact 338 r.peers)

at_least_minute_lem :
    (r : AnnounceResult) → at_least_minute r ≡ record r { interval_s = max 60 r.interval_s }
at_least_minute_lem r = elim (Bool-cases (ltb r.interval_s 60)) [
  | inl short ↦
      rw short (ap (λ i. record r { interval_s = i }) (omega (arith, ltb→lt r.interval_s 60 short)))
  | inr long ↦
      rw long (ap (λ i. record r { interval_s = i }) (omega (arith, ltb→ge r.interval_s 60 long)))
]

-- The same for what is in the buffer.
buffer-reply_of :
    (tid : ℕ) (r : AnnounceResult)
    → tid < 2 ^ 32
    → Fits r
    → (is_answer 1 tid (reply_of tid r) ≡ true)
      × (read_buffer (reply_of tid r) ≡ done (at_least_minute r))
unfolding read_buffer is_answer wr_be32 rd_be32
buffer-reply_of tid r small (hi, hl, hs, hp) = (
  ap (λ a. taken a (rd_be32 (drop 4 (reply_of tid r)))) (long 16 (omega arith))
      ∙ ap (taken false) (rd_be32-back tid (drop 8 (reply_of tid r)) small)
      ∙ (==_iff tid tid).1 refl,
  ap
        (λ t.
          if t
          then fail TrackerError.truncated
          else read (rd_be32 (wr_be32 r.interval_s)) (rd_be32 (wr_be32 r.leechers))
              (rd_be32 (wr_be32 r.seeders)) (parse_compact_peers (compact r.peers)))
        (long 20 (omega arith))
      ∙ ap
          (λ i.
            read i (rd_be32 (wr_be32 r.leechers)) (rd_be32 (wr_be32 r.seeders))
              (parse_compact_peers (compact r.peers)))
          (rd_be32-back r.interval_s [] hi)
      ∙ ap
          (λ l.
            read r.interval_s l (rd_be32 (wr_be32 r.seeders))
              (parse_compact_peers (compact r.peers)))
          (rd_be32-back r.leechers [] hl)
      ∙ ap (λ s. read r.interval_s r.leechers s (parse_compact_peers (compact r.peers)))
          (rd_be32-back r.seeders [] hs)
      ∙ ap (λ ps. read r.interval_s r.leechers r.seeders ps)
          (parse_compact_peers-compact r.peers hp),
)
  where
    taken : Bool → ℕ → Bool
    taken short n = not short && rd_be32 (reply_of tid r) == 1 && n == tid

    read : ℕ → ℕ → ℕ → List Endpoint → Try TrackerError AnnounceResult
    read i l s ps =
        done (at_least_minute (record { interval_s = i; leechers = l; seeders = s; peers = ps }))

    long : (n : ℕ) → n ≤ 20 → ltb (length (reply_of tid r)) n ≡ false
    long n h = le→ltb n (length (reply_of tid r)) (omega arith)

-- A well-formed answer of a tracker over UDP is taken for the answer to its transaction, and gives
-- the numbers that it was made of, but an interval of at least 60 seconds, and its first 338 peers,
-- which are those that the buffer has room for.
pub read_reply-reply_of :
    (tid : ℕ) (r : AnnounceResult)
    → tid < 2 ^ 32
    → Fits r
    → (is_reply 1 tid (reply_of tid r) ≡ true)
      × (read_reply (reply_of tid r)
          ≡ done (record {
            interval_s = max 60 r.interval_s;
            seeders = r.seeders;
            leechers = r.leechers;
            peers = take 338 r.peers;
          }))
unfolding is_reply read_reply
read_reply-reply_of tid r small (hi, hl, hs, hp) =
    let (is, read) =
      buffer-reply_of tid (cut_to_buffer r) small
        (hi, hl, hs, All-take IsEndpoint 338 r.peers hp) in
    (
      ap (is_answer 1 tid) (received-reply_of tid r) ∙ is,
      ap read_buffer (received-reply_of tid r)
          ∙ read
          ∙ ap done (at_least_minute_lem (cut_to_buffer r)),
    )
