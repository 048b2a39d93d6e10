-- ===== src/Lib.antt =====
-- Torfoil, a BitTorrent client for a game console: the parts of its engine that are modelled here, and
-- what is proved of them.
--
-- The program. A torrent is described by a MetaInfo record (include/bt/metainfo.hpp), read from
-- bencoded text. The session gives each peer connection blocks to ask for; which ones, the piece
-- picker decides (source/bt/piece_picker.cpp) from the bitfields of the peers, its own bitfield and
-- the blocks in flight. What arrives, times out or fails its check goes back to the picker. File names
-- and links pass through the byte helpers of source/util/bytes.cpp. Traffic may go through a WireGuard
-- tunnel, whose state machine is class Peer of source/net/wg/wireguard.cpp.
--
-- The files.
-- - Prelude and its children: library names passed on, Boolean tests, lists and bytes, maps as lists
--   of entries (Prelude/Maps), sums (Prelude/Sums), checks of small tables (Prelude/Tables).
-- - Bytes/Hex, Bytes/Base32, Bytes/BigEndian, Bytes/Text, Bytes/Sanitize: source/util/bytes.cpp and
--   include/util/bytes.hpp. A std::string or a buffer of uint8_t is a list of numbers below 256.
-- - Bitfield and its children: class Bitfield. Its bytes, size and cached count are a record; get, set
--   (set_bit here), resize, clear, from_bytes, full and empty are functions on it.
-- - Bencode: source/bt/bencode.cpp and include/bt/bencode.hpp: the decoder (bdecode and the calls of
--   class Parser); Bencode/Lookup: Value::find and its kin; Bencode/Encode: the encoder.
--   Bencode/Outcome, Progress, Order and Spans hold the proofs on the decoder, Bencode/Numbers,
--   Locate, Join, Steps and RoundTrip those on both together.
-- - MetaInfo, MetaInfo/Pieces: the record of a torrent and the cut into pieces. MetaInfo/Trackers:
--   collect_trackers; Adds and Collected below it: which trackers it gives. MetaInfo/Read: read_info, parse_torrent, parse_info_dict; MetaInfo/Accepted,
--   Files and Torrents: what holds of what they accept.
-- - Magnet: source/bt/magnet.cpp, parse_magnet; Magnet/Parts and Magnet/Laws: where its hash comes
--   from, with Bytes/Base32/Value on the number that base 32 stands for; Magnet/Links: a link that is
--   accepted.
-- - WireGuard: source/net/wg/wireguard.cpp and include/net/wg/wireguard.hpp: class Peer and what its
--   operations share. Codec: numbers with the lowest byte first. Handshake: the four steps of the
--   handshake. Transport: encapsulate, decapsulate, the timers and the window against replay. Keys:
--   keys in base 64. The proofs: Shifts, Tells, Window and Replay on the window; Channel and Transfer
--   on packets of a session; Boxes, Steps, Initiation, Agreement and Session on the handshake.
-- - Http: source/net/http_parse.cpp and include/net/http_parse.hpp: the requests of the remote
--   control. Http/Form: fields of a form, parts of an upload, and escapes. The proofs: Http/Laws,
--   Http/Form/Laws, and Http/Loops on the rounds of its loops.
-- - Tracker: source/bt/tracker.cpp: the address of an announce, its datagrams, and the answers read;
--   a datagram is received into a buffer of 2048 bytes, and what is longer is cut.
-- - PiecePicker: the state of class PiecePicker and its operations, each a function from the state and
--   the arguments to the new state and the result. PiecePicker/Pick: pick and the loops inside it. The
--   children hold the invariant (Invariant) and the proofs for each operation.
-- - Tests and its children: runs at fixed inputs, and the theorems at concrete inputs.
--
-- The correspondence. uint32_t and uint64_t sums are written with their wrap. A loop over a container
-- is a recursion on a list. An unordered_map is the list of its entries; the order of the list is the
-- order of iteration, which the theorems leave open. The second loop of pick makes at most max rounds,
-- since each round that goes on adds a request, so max rounds are given to it. The buffer that pick
-- fills is the list of its requests. bool results with an out parameter are an Option.
--
-- Code that fails with a message gives a Try (Prelude/Fail); what a refused call leaves in its out
-- argument is left out. The hash Sha1::of is a parameter of parse_torrent and parse_info_dict.
--
-- BLAKE2s, X25519 and ChaCha20-Poly1305 are the fields of a record that the operations of Peer take
-- (WireGuard.Primitives); what is relied on of them is the record Laws of WireGuard/Channel: lengths,
-- that a sealed text is opened again, and that both sides of a key exchange come to the same secret.
-- Random bytes are arguments. The hash keyed for a MAC gives 16 bytes, as the code asks for. A state
-- that a refused handshake message leaves behind is part of the result; what was already written of a
-- message that is not sent is left out.
--
-- The loops of Http move a position forward through a text by at least one character in each round;
-- they take fuel, at least as many rounds as the text is long.
--
-- The decoder and its position are a cursor, passed on by each call; fail ends the decoding, so its
-- message is the result. The calls of parse, parse_list and parse_dict take fuel: twice the length of
-- the buffer and one more, since a call reads a byte or hands on to one that does. The value that a
-- failed bdecode leaves half filled is left out. Encoding appends to a string in the program and
-- returns a list here. The number of a value, of type int64_t, is a sign and a magnitude.
--
-- Not modelled. PiecePicker::progress returns a float. human_size uses floating point. disk_free and
-- random_bytes are system calls. Of the tracker client, the sending and waiting are left out, and name
-- resolution is a parameter. Sockets, threads, drawing and the vendored libraries are left out.
pub mod Prelude
pub mod Bytes
pub mod Bitfield
pub mod Bencode
pub mod Magnet
pub mod MetaInfo
pub mod Http
pub mod Tracker
pub mod WireGuard
pub mod PiecePicker
mod Tests
