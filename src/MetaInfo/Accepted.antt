-- ===== src/MetaInfo/Accepted.antt =====
-- source/bt/metainfo.cpp: what is known of a torrent that `read_info` accepts.
use Prim.Native.Nat.{Ordering}
use native.Mathlib.Nat.{div-add-mod, mod-lt, mul_comm}
use torfoil.Prelude.{
  subst, All, sym, ◌∙◌, ℕ, zero, suc, ◌+◌, ◌-◌, ◌*◌, ◌/◌, ◌%◌, ◌^◌, ◌≤◌, ◌<◌, Bool, true, false,
  not, ◌||◌, Option, none, some, List, [], ◌∷◌, ◌++◌, ◌==◌, length, drop, Bytes, codes, ◌≡◌, refl,
  arith, ap,
}
use torfoil.Prelude.Fail.{
  fail, done, ◌>>=◌, unless, Gives, Gives-of, Gives-bind, Gives-done, Gives-fail, Gives-unless,
  unless-done,
}
use torfoil.Bencode.{Integer, plus, minus, magnitude, Value, Items, Fields, compare_keys}
use torfoil.Bencode.Spans.{span_of, Inner, PlacedFields, IsWithin}
use torfoil.Bencode.Lookup.{lookup, find, find_int, find_str, find_list}
use torfoil.MetaInfo.{FileEntry, MetaInfo}
use torfoil.MetaInfo.Pieces.{IsConsistent}
use torfoil.MetaInfo.Files.{IsSafePath, Tiled, IsFileName-IsSafePath, read_files_lem}
use torfoil.Bytes.Sanitize.{sanitize_filename}
use torfoil.Bytes.Sanitize.Names.{IsFileName, sanitize_filename-IsFileName}
use torfoil.MetaInfo.Read.{
  TorrentError, read_piece_length, cut_hashes, read_pieces, read_name, read_files, read_contents,
  read_info, expected_pieces,
}

lookup-Inner :
    (key : Bytes) (low high : ℕ) (d : Fields) (v : Value)
    → PlacedFields low high d
    → lookup key d ≡ some v
    → IsWithin low high (span_of v) × Inner v
unfolding lookup PlacedFields
lookup-Inner key low high Fields.no_fields v h e = cc
lookup-Inner key low high (Fields.field k w d) v h e =
    cases (compare_keys key k) e (lookup-Inner key low high d v h.2)
  where
    cases :
        (order : Ordering)
        → (elim order [ Ordering.eq ↦ some w | _ ↦ lookup key d ]) ≡ some v
        → (lookup key d ≡ some v → IsWithin low high (span_of v) × Inner v)
        → IsWithin low high (span_of v) × Inner v
    cases Ordering.lt e later = later e
    cases Ordering.gt e later = later e
    cases Ordering.eq e later =
        let same : w ≡ v = cc in
        subst (λ x. IsWithin low high (span_of x) × Inner x) same (h.0, h.1)

pub find-Inner : (key : Bytes) (info v : Value) → Inner info → find key info ≡ some v → Inner v
unfolding find Inner
find-Inner key (Value.dict d s) v h e =
    (lookup-Inner key (s.raw_begin + 1) (s.raw_end - 1) d v h.1 e).1
find-Inner key (Value.int n s) v h e = cc
find-Inner key (Value.str b s) v h e = cc
find-Inner key (Value.list vs s) v h e = cc

find_str-le :
    (key : Bytes) (info : Value) (b : Bytes)
    → Inner info
    → find_str key info ≡ some b
    → length b ≤ 67108864
unfolding find_str
find_str-le key info b h e = cases (find key info) refl e
  where
    cases :
        (found : Option Value)
        → find key info ≡ found
        → (elim found [ some (Value.str b s) ↦ some b | _ ↦ none ]) ≡ some b
        → length b ≤ 67108864
    cases none at e = cc
    cases (some (Value.int n s)) at e = cc
    cases (some (Value.list vs s)) at e = cc
    cases (some (Value.dict d s)) at e = cc
    cases (some (Value.str c s)) at e =
        let same : c ≡ b = cc in
        let fits : length c ≤ 67108864 = unfold Inner in find-Inner key info (Value.str c s) h at in
        omega (arith, ap length same)

find_int-le :
    (key : Bytes) (info : Value) (n : Integer)
    → Inner info
    → find_int key info ≡ some n
    → magnitude n ≤ 9223372036854775807
unfolding find_int
find_int-le key info n h e = cases (find key info) refl e
  where
    cases :
        (found : Option Value)
        → find key info ≡ found
        → (elim found [ some (Value.int n s) ↦ some n | _ ↦ none ]) ≡ some n
        → magnitude n ≤ 9223372036854775807
    cases none at e = cc
    cases (some (Value.str n s)) at e = cc
    cases (some (Value.list vs s)) at e = cc
    cases (some (Value.dict d s)) at e = cc
    cases (some (Value.int m s)) at e =
        let same : m ≡ n = cc in
        let fits : magnitude m ≤ 9223372036854775807 =
          unfold Inner in find-Inner key info (Value.int m s) h at in
        omega (arith, ap magnitude same)

length-cut_hashes : (n : ℕ) (s : Bytes) → length (cut_hashes n s) ≡ n
unfolding cut_hashes
length-cut_hashes zero s = refl
length-cut_hashes (suc n) s = ap suc (length-cut_hashes n (drop 20 s))

read_piece_length_bounds :
    (info : Value) (n : ℕ) → read_piece_length info ≡ done n → (0 < n) × (n ≤ 256 * 1024 * 1024)
unfolding read_piece_length
read_piece_length_bounds info n h = ground arith

read_pieces_bounds :
    (info : Value) (hashes : List Bytes)
    → Inner info
    → read_pieces info ≡ done hashes
    → (0 < length hashes) × (length hashes ≤ 3355444)
unfolding read_pieces
read_pieces_bounds info hashes inner h = cases (find_str (codes "pieces") info) refl h
  where
    cases :
        (found : Option Bytes)
        → find_str (codes "pieces") info ≡ found
        → (elim found [
          | none ↦ fail TorrentError.bad_pieces
          | some pieces ↦
              unless
                (length pieces == 0 || not (length pieces % 20 == 0))
                TorrentError.bad_pieces
                (done (cut_hashes (length pieces / 20) pieces))
        ])
          ≡ done hashes
        → (0 < length hashes) × (length hashes ≤ 3355444)
    cases none at e = cc
    cases (some pieces) at e =
        let (passed, cut) =
          unless-done (length pieces == 0 || not (length pieces % 20 == 0)) _ _ e in
        let short = find_str-le (codes "pieces") info pieces inner at in
        let same : cut_hashes (length pieces / 20) pieces ≡ hashes = cc in
        let many : length pieces / 20 ≡ length hashes =
          sym (length-cut_hashes _ pieces) ∙ ap length same in
        ground arith

-- The check of the number of pieces, whose sum cannot wrap unless it fails.
expected_pieces_lem :
    (total piece_length count : ℕ)
    → 0 < total
    → total < 2 ^ 64
    → 0 < piece_length
    → piece_length ≤ 256 * 1024 * 1024
    → 0 < count
    → expected_pieces total piece_length ≡ count
    → (total ≤ count * piece_length) × (count * piece_length < total + piece_length)
expected_pieces_lem total piece_length count ht hf hp hl hc e =
    let x = (total + piece_length + (2 ^ 64 - 1)) % 2 ^ 64 in
    let parts : piece_length * (x / piece_length) + x % piece_length ≡ x =
      div-add-mod x piece_length in
    let rest : x % piece_length < piece_length = mod-lt x hp in
    let whole : piece_length * (x / piece_length) ≡ count * piece_length =
      rw e (mul_comm piece_length count) in
    let some_ : piece_length ≤ count * piece_length = grind arith in omega arith

-- The files, their total size, and whether there is one only.
abbrev IsContents : List FileEntry × ℕ × Bool → Type 0
IsContents (files, total, single) =
    Tiled 0 files total × All (λ f. IsSafePath f.path) files × (total < 2 ^ 64)

read_contents-IsContents :
    (info : Value) (name : Bytes)
    → Inner info
    → IsSafePath name
    → Gives IsContents (read_contents info name)
unfolding read_contents
read_contents-IsContents info name inner safe = several (find_list (codes "files") info)
  where
    one :
        (found : Option Integer)
        → find_int (codes "length") info ≡ found
        → Gives IsContents (elim found [
          | none ↦ fail TorrentError.length_missing
          | some (minus n) ↦ fail TorrentError.length_missing
          | some (plus n) ↦ done (record { path = name; length = n; offset = 0 } ∷ [], n, true)
        ])
    one none at = Gives-fail
    one (some (minus n)) at = Gives-fail
    one (some (plus n)) at =
        let small : n ≤ 9223372036854775807 = find_int-le (codes "length") info (plus n) inner at in
        Gives-done ((refl, omega arith), (safe, tt), omega arith)

    several :
        (found : Option Items)
        → Gives IsContents (elim found [
          | some items ↦ read_files 0 items >>= λ (entries, total). done (entries, total, false)
          | none ↦ elim (find_int (codes "length") info) [
            | none ↦ fail TorrentError.length_missing
            | some (minus n) ↦ fail TorrentError.length_missing
            | some (plus n) ↦ done (record { path = name; length = n; offset = 0 } ∷ [], n, true)
          ]
        ])
    several none = one (find_int (codes "length") info) refl
    several (some items) =
        Gives-bind
          (Gives-of (read_files 0 items)
            (λ (files, end) read. read_files_lem 0 items files end (omega arith) read))
          (λ (files, end) h. Gives-done h)

read_name-IsFileName : (info : Value) (name : Bytes) → read_name info ≡ done name → IsFileName name
unfolding read_name
read_name-IsFileName info name e = cases (find_str (codes "name") info) e
  where
    cases :
        (found : Option Bytes)
        → (elim found [
          | none ↦ fail TorrentError.name_missing
          | some [] ↦ fail TorrentError.name_missing
          | some (c ∷ name) ↦ done (sanitize_filename (c ∷ name))
        ])
          ≡ done name
        → IsFileName name
    cases none e = cc
    cases (some []) e = cc
    cases (some (c ∷ raw)) e =
        let same : sanitize_filename (c ∷ raw) ≡ name = cc in
        subst IsFileName same (sanitize_filename-IsFileName (c ∷ raw))

-- A torrent as `read_info` leaves it: its numbers fit together, its files stand one behind the other
-- and make up its size, as far as 64 bits can tell, and its paths stay below the folder of its name.
pub record IsAccepted (m : MetaInfo) : Type 0 where
  pub consistent : IsConsistent m
  pub tiled : Tiled 0 m.files m.total_size
  pub safe : All (λ f. IsSafePath f.path) m.files
  pub named : IsFileName m.name

pub read_info-IsAccepted :
    (info : Value) (out : MetaInfo)
    → Inner info
    → out.files ≡ []
    → Gives (λ m. IsAccepted m × (m.info_hash ≡ out.info_hash)) (read_info info out)
unfolding read_info
read_info-IsAccepted info out inner fresh =
    Gives-bind (Gives-of (read_piece_length info) (read_piece_length_bounds info)) (λ pl size.
      Gives-bind (Gives-of (read_pieces info) (λ hs e. read_pieces_bounds info hs inner e))
        (λ hashes count.
          Gives-bind (Gives-of (read_name info) (read_name-IsFileName info)) (λ name named.
            Gives-bind (read_contents-IsContents info name inner (IsFileName-IsSafePath name named))
              (λ (files, total, single) contents.
                Gives-unless (total == 0) TorrentError.empty_torrent (λ some_.
                  Gives-unless (not (expected_pieces total pl == length hashes))
                    TorrentError.piece_count_differs
                    (λ right.
                      let pos : 0 < total = ground arith in
                      let exact : expected_pieces total pl ≡ length hashes = ground arith in
                      let parts =
                        expected_pieces_lem total pl (length hashes) pos contents.2 size.0 size.1
                          count.0 exact in
                      let same : out.files ++ files ≡ files = rw fresh refl in
                      Gives-done (
                        record {
                          consistent = record {
                            piece_length_pos = size.0;
                            piece_length-le = size.1;
                            total_pos = pos;
                            total_fits = contents.2;
                            few = omega arith;
                            enough = parts.0;
                            none_spare = parts.1;
                          };
                          tiled = subst (λ fs. Tiled 0 fs total) (sym same) contents.0;
                          safe = subst (All (λ f. IsSafePath f.path)) (sym same) contents.1;
                          named = named;
                        },
                        refl,
                      )))))))
