-- ===== src/MetaInfo/Read.antt =====
-- source/bt/metainfo.cpp: `read_info`, `parse_torrent` and `parse_info_dict`. The hash `Sha1::of` is a
-- parameter. What a refused call leaves in `out` is left out.
use torfoil.Prelude.{
  ℕ, zero, suc, ◌+◌, ◌-◌, ◌*◌, ◌/◌, ◌%◌, ◌^◌, Bool, true, false, not, ◌||◌, none, some, List, [],
  ◌∷◌, ◌++◌, ltb, leb, ◌==◌, length, take, drop, Bytes, codes,
}
use torfoil.Prelude.Fail.{Try, fail, done, ◌>>=◌, unless}
use torfoil.Bytes.Sanitize.{sanitize_filename}
use torfoil.Bencode.{
  Span, Integer, plus, minus, Value, Items, Error, ok, err, compare_keys, bdecode,
}
use torfoil.Bencode.Spans.{span_of}
use torfoil.Bencode.Lookup.{find_int, find_str, find_list, find_dict, int_or}
use torfoil.MetaInfo.{FileEntry, MetaInfo}
use torfoil.MetaInfo.Trackers.{same_url, collect_trackers}

-- The messages.
pub data TorrentError : Type 0 where
  bad_piece_length bad_pieces name_missing bad_file bad_path_part suspect_path : TorrentError
  length_missing empty_torrent piece_count_differs : TorrentError
  root_not_dict info_missing bad_info_span hash_differs info_not_dict : TorrentError
  bencode : Error → TorrentError

abbrev pub max_piece_length : ℕ
max_piece_length = 256 * 1024 * 1024

unfoldable pub read_piece_length : Value → Try TorrentError ℕ
unfolding find_int
read_piece_length info = elim (find_int (codes "piece length") info) [
  | none ↦ fail TorrentError.bad_piece_length
  | some (minus n) ↦ fail TorrentError.bad_piece_length
  | some (plus n) ↦ unless (n == 0 || ltb max_piece_length n) TorrentError.bad_piece_length (done n)
]

-- `count` hashes of 20 bytes.
unfoldable pub cut_hashes : ℕ → Bytes → List Bytes
cut_hashes zero pieces = []
cut_hashes (suc count) pieces = take 20 pieces ∷ cut_hashes count (drop 20 pieces)

unfoldable pub read_pieces : Value → Try TorrentError (List Bytes)
unfolding find_str cut_hashes
read_pieces info = elim (find_str (codes "pieces") info) [
  | none ↦ fail TorrentError.bad_pieces
  | some pieces ↦
      unless (length pieces == 0 || not (length pieces % 20 == 0)) TorrentError.bad_pieces
        (done (cut_hashes (length pieces / 20) pieces))
]

unfoldable pub read_name : Value → Try TorrentError Bytes
unfolding find_str sanitize_filename
read_name info = elim (find_str (codes "name") info) [
  | none ↦ fail TorrentError.name_missing
  | some [] ↦ fail TorrentError.name_missing
  | some (c ∷ name) ↦ done (sanitize_filename (c ∷ name))
]

abbrev pub is_zero : Integer → Bool
is_zero (plus n) = n == 0
is_zero (minus n) = n == 0

abbrev pub same_text : Bytes → Bytes → Bool
same_text a b = same_url a b

-- A component behind the path so far.
abbrev pub add_part : Bytes → Bytes → Bytes
add_part [] part = part
add_part (c ∷ joined) part = (c ∷ joined) ++ b'/' ∷ part

unfoldable pub read_path : Bytes → Items → Try TorrentError Bytes
unfolding sanitize_filename compare_keys
read_path joined Items.no_items = done joined
read_path joined (Items.item (Value.str part s) rest) =
    let clean = sanitize_filename part in
    let more = read_path (add_part joined clean) rest in
    unless (same_text clean (codes ".") || same_text clean (codes "..")) TorrentError.suspect_path
      more
read_path joined (Items.item (Value.int n s) rest) = fail TorrentError.bad_path_part
read_path joined (Items.item (Value.list vs s) rest) = fail TorrentError.bad_path_part
read_path joined (Items.item (Value.dict d s) rest) = fail TorrentError.bad_path_part

unfoldable pub file_path : Value → Try TorrentError Bytes
unfolding find_list read_path
file_path f = elim (find_list (codes "path") f) [
  | none ↦ fail TorrentError.bad_file
  | some Items.no_items ↦ fail TorrentError.bad_file
  | some (Items.item part rest) ↦ read_path [] (Items.item part rest)
]

-- One entry of `files`: its length, then its path.
unfoldable pub read_file : ℕ → Value → Try TorrentError FileEntry
unfolding find_int file_path
read_file offset f = elim (find_int (codes "length") f) [
  | none ↦ fail TorrentError.bad_file
  | some (minus n) ↦ fail TorrentError.bad_file
  | some (plus n) ↦ do
    path ← file_path f
    done (record { path = path; length = n; offset = offset })
]

-- `offset += entry.length` wraps.
unfoldable pub read_files : ℕ → Items → Try TorrentError (List FileEntry × ℕ)
unfolding read_file
read_files offset Items.no_items = done ([], offset)
read_files offset (Items.item f rest) = do
  entry ← read_file offset f
  (entries, end) ← read_files ((offset + entry.length) % 2 ^ 64) rest
  done (entry ∷ entries, end)

-- The entries, the total size, and whether there is one file only.
unfoldable pub read_contents : Value → Bytes → Try TorrentError (List FileEntry × ℕ × Bool)
unfolding find_list find_int read_files
read_contents info name = elim (find_list (codes "files") info) [
  | some files ↦ do (entries, total) ← read_files 0 files; done (entries, total, false)
  | none ↦ elim (find_int (codes "length") info) [
    | none ↦ fail TorrentError.length_missing
    | some (minus n) ↦ fail TorrentError.length_missing
    | some (plus n) ↦ done (record { path = name; length = n; offset = 0 } ∷ [], n, true)
  ]
]

-- `(total_size + piece_length - 1) / piece_length`, in `uint64_t`.
abbrev pub expected_pieces : ℕ → ℕ → ℕ
expected_pieces total piece_length = (total + piece_length + (2 ^ 64 - 1)) % 2 ^ 64 / piece_length

unfoldable pub read_info : Value → MetaInfo → Try TorrentError MetaInfo
unfolding read_piece_length read_pieces read_name int_or read_contents
read_info info out = do
  piece_length ← read_piece_length info
  hashes ← read_pieces info
  name ← read_name info
  (entries, total, single) ← read_contents info name
  unless (total == 0) TorrentError.empty_torrent (
      unless (not (expected_pieces total piece_length == length hashes))
        TorrentError.piece_count_differs
        (done (record out {
          piece_length = piece_length;
          piece_hashes = hashes;
          name = name;
          is_private = not (is_zero (int_or (codes "private") (plus 0) info));
          files = out.files ++ entries;
          total_size = total;
          single_file = single;
        })))

-- The bytes of a value in the buffer.
abbrev pub raw_bytes : Bytes → Span → Bytes
raw_bytes buf s = take (s.raw_end - s.raw_begin) (drop s.raw_begin buf)

abbrev pub is_dict : Value → Bool
is_dict (Value.dict d s) = true
is_dict (Value.int n s) = false
is_dict (Value.str b s) = false
is_dict (Value.list vs s) = false

abbrev pub decode : Bytes → Try TorrentError Value
decode buf = elim (bdecode buf) [ err e ↦ fail (TorrentError.bencode e) | ok root ↦ done root ]

abbrev pub info_of : Value → Try TorrentError Value
info_of root = elim (find_dict (codes "info") root) [
  | none ↦ fail TorrentError.info_missing
  | some info ↦ done info
]

module _ (sha1 : Bytes → Bytes) where
  unfoldable pub parse_torrent : Bytes → MetaInfo → Try TorrentError MetaInfo
  unfolding bdecode find_dict read_info collect_trackers
  parse_torrent buf out = do
    root ← decode buf
    unless (not (is_dict root)) TorrentError.root_not_dict (do
      info ← info_of root
      let s = span_of info
      unless (leb s.raw_end s.raw_begin || ltb (length buf) s.raw_end) TorrentError.bad_info_span
          (do
            m ← read_info info (record out { info_hash = sha1 (raw_bytes buf s) })
            done (record m { trackers = collect_trackers root m.trackers })))

  unfoldable pub parse_info_dict : Bytes → Bytes → MetaInfo → Try TorrentError MetaInfo
  unfolding bdecode read_info compare_keys
  parse_info_dict info_buf expected out =
      unless (not (same_text (sha1 info_buf) expected)) TorrentError.hash_differs (do
        info ← decode info_buf
        unless (not (is_dict info)) TorrentError.info_not_dict
            (read_info info (record out { info_hash = expected })))
