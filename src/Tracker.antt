-- ===== src/Tracker.antt =====
-- source/bt/tracker.cpp and include/bt/tracker.hpp: what is sent to a tracker and what is read of its
-- answer. Sockets, clocks and name resolution are parameters or left out.
pub mod Laws
use torfoil.Prelude.{
  ℕ, ◌+◌, ◌-◌, ◌%◌, ◌^◌, Bool, true, false, not, ◌&&◌, ◌||◌, Option, none, some, List, [], ◌∷◌,
  ◌++◌, ltb, ◌==◌, if◌then◌else◌, length, take, drop, Bytes, codes, ◌>>=◌,
}
use torfoil.Prelude.Fail.{Try, fail, done}
use torfoil.Bytes.Hex.{url_encode}
use torfoil.Bytes.BigEndian.{rd_be16, rd_be32, rd_be64, wr_be16, wr_be32, wr_be64}
use torfoil.Bencode.{Integer, plus, minus, Value, Items, Error, err, ok, bdecode}
use torfoil.Bencode.Lookup.{find, find_int, find_str, int_or}
use torfoil.Bencode.Encode.{decimal}
use torfoil.Http.{find_text}

-- include/net/transport.hpp.
pub record Endpoint : Type 0 where
  pub ipv4 : ℕ
  pub port : ℕ

abbrev pub is_valid : Endpoint → Bool
is_valid ep = not (ep.ipv4 == 0) && not (ep.port == 0)

pub data AnnounceEvent : Type 0 where
  no_event started completed stopped : AnnounceEvent

pub record AnnounceRequest : Type 0 where
  pub info_hash : Bytes
  pub peer_id : Bytes
  pub port : ℕ
  pub uploaded : ℕ
  pub downloaded : ℕ
  pub left : ℕ
  pub event : AnnounceEvent
  pub num_want : ℕ
  pub key : ℕ

pub record AnnounceResult : Type 0 where
  pub interval_s : ℕ
  pub seeders : ℕ
  pub leechers : ℕ
  pub peers : List Endpoint

-- The messages of a failed announce.
pub data TrackerError : Type 0 where
  unreadable : Error → TrackerError
  refused : Bytes → TrackerError
  truncated : TrackerError

abbrev pub event_name : AnnounceEvent → Bytes
event_name AnnounceEvent.started = codes "started"
event_name AnnounceEvent.completed = codes "completed"
event_name AnnounceEvent.stopped = codes "stopped"
event_name AnnounceEvent.no_event = []

abbrev pub event_code : AnnounceEvent → ℕ
event_code AnnounceEvent.completed = 1
event_code AnnounceEvent.started = 2
event_code AnnounceEvent.stopped = 3
event_code AnnounceEvent.no_event = 0

-- Six bytes for each peer; what is left over at the end is passed over.
unfoldable pub parse_compact_peers : Bytes → List Endpoint
unfolding rd_be16 rd_be32
parse_compact_peers (a ∷ b ∷ c ∷ d ∷ e ∷ f ∷ blob) =
    let ep : Endpoint = record {
      ipv4 = rd_be32 (a ∷ b ∷ c ∷ d ∷ []);
      port = rd_be16 (e ∷ f ∷ []);
    } in
    let later = parse_compact_peers blob in if is_valid ep then ep ∷ later else later
parse_compact_peers _ = []

-- The address of an HTTP announce.
unfoldable pub announce_url : Bytes → AnnounceRequest → Bytes
unfolding url_encode
announce_url url req =
    let mark = elim (find_text (b'?' ∷ []) 0 url) as (λ _. ℕ) [ none ↦ b'?' | some _ ↦ b'&' ] in
    let event = elim (event_name req.event) as (λ _. Bytes) [
      | [] ↦ []
      | c ∷ name ↦ codes "&event=" ++ c ∷ name
    ] in
    url
    ++ mark ∷ codes "info_hash="
    ++ url_encode req.info_hash
    ++ codes "&peer_id="
    ++ url_encode req.peer_id
    ++ codes "&port="
    ++ decimal req.port
    ++ codes "&uploaded="
    ++ decimal req.uploaded
    ++ codes "&downloaded="
    ++ decimal req.downloaded
    ++ codes "&left="
    ++ decimal req.left
    ++ codes "&numwant="
    ++ decimal req.num_want
    ++ codes "&key="
    ++ decimal req.key
    ++ codes "&compact=1&no_peer_id=1"
    ++ event

-- A cast to `w` bits.
abbrev pub cast : ℕ → Integer → ℕ
cast w (plus n) = n % 2 ^ w
cast w (minus n) = (2 ^ w - n % 2 ^ w) % 2 ^ w

abbrev pub at_least_minute : AnnounceResult → AnnounceResult
at_least_minute r = if ltb r.interval_s 60 then record r { interval_s = 60 } else r

-- An entry of the older form, a dictionary of `ip` and `port`, where the name is resolved.
unfoldable pub listed_peers : (Bytes → Option ℕ) → Items → List Endpoint
unfolding find_str find_int
listed_peers resolve Items.no_items = []
listed_peers resolve (Items.item p rest) =
    let later = listed_peers resolve rest in
    let endpoint = (do
      ip ← find_str (codes "ip") p
      port ← find_int (codes "port") p
      addr ← resolve ip
      let ep : Endpoint = record { ipv4 = addr; port = cast 16 port }
      if is_valid ep then some ep else none) in
    elim endpoint [ none ↦ later | some ep ↦ ep ∷ later ]

unfoldable pub peers_of : (Bytes → Option ℕ) → Option Value → List Endpoint
unfolding parse_compact_peers listed_peers
peers_of resolve none = []
peers_of resolve (some (Value.int n s)) = []
peers_of resolve (some (Value.str blob s)) = parse_compact_peers blob
peers_of resolve (some (Value.list vs s)) = listed_peers resolve vs
peers_of resolve (some (Value.dict d s)) = []

-- The body of an answer with status 200.
unfoldable pub read_answer : (Bytes → Option ℕ) → Bytes → Try TrackerError AnnounceResult
unfolding find_str int_or find peers_of bdecode
read_answer resolve body = elim (bdecode body) [
  | err e ↦ fail (TrackerError.unreadable e)
  | ok root ↦ elim (find_str (codes "failure reason") root) [
    | some reason ↦ fail (TrackerError.refused reason)
    | none ↦ done (
        at_least_minute (record {
          interval_s = cast 32 (int_or (codes "interval") (plus 1800) root);
          seeders = cast 32 (int_or (codes "complete") (plus 0) root);
          leechers = cast 32 (int_or (codes "incomplete") (plus 0) root);
          peers = peers_of resolve (find (codes "peers") root);
        }))
  ]
]

-- BEP 15: the first datagram, and the second with the connection that the first was answered with.
unfoldable pub connect_request : ℕ → Bytes
unfolding wr_be64 wr_be32
connect_request tid = wr_be64 0x41727101980 ++ (wr_be32 0 ++ wr_be32 tid)

unfoldable pub announce_packet : ℕ → ℕ → AnnounceRequest → Bytes
unfolding wr_be64 wr_be32 wr_be16
announce_packet connection_id tid req =
    wr_be64 connection_id
    ++ (wr_be32 1
        ++ (wr_be32 tid
            ++ (req.info_hash
                ++ (req.peer_id
                    ++ (wr_be64 req.downloaded
                        ++ (wr_be64 req.left
                            ++ (wr_be64 req.uploaded
                                ++ (wr_be32 (event_code req.event)
                                    ++ (wr_be32 0
                                        ++ (wr_be32 req.key
                                            ++ (wr_be32 req.num_want ++ wr_be16 req.port)))))))))))

-- The buffer of an answer: of a datagram that is longer, the rest is lost.
abbrev pub reply_capacity : ℕ
reply_capacity = 2048

abbrev pub received : Bytes → Bytes
received datagram = take reply_capacity datagram

unfoldable pub is_answer : ℕ → ℕ → Bytes → Bool
unfolding rd_be32
is_answer expect_action tid buf =
    not (ltb (length buf) 16) && rd_be32 buf == expect_action && rd_be32 (drop 4 buf) == tid

-- Whether a datagram from the tracker's address is the answer waited for.
unfoldable pub is_reply : ℕ → ℕ → Bytes → Bool
unfolding is_answer
is_reply expect_action tid datagram = is_answer expect_action tid (received datagram)

abbrev pub connection_of : Bytes → ℕ
connection_of datagram = rd_be64 (drop 8 (received datagram))

unfoldable pub read_buffer : Bytes → Try TrackerError AnnounceResult
unfolding rd_be32 parse_compact_peers
read_buffer reply =
    if ltb (length reply) 20
    then fail TrackerError.truncated
    else done (
        at_least_minute (record {
          interval_s = rd_be32 (drop 8 reply);
          leechers = rd_be32 (drop 12 reply);
          seeders = rd_be32 (drop 16 reply);
          peers = parse_compact_peers (drop 20 reply);
        }))

-- The answer to the second datagram.
unfoldable pub read_reply : Bytes → Try TrackerError AnnounceResult
unfolding read_buffer
read_reply datagram = read_buffer (received datagram)
