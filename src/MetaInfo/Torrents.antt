-- ===== src/MetaInfo/Torrents.antt =====
-- source/bt/metainfo.cpp: what is known of a torrent that `parse_torrent` or `parse_info_dict` accepts.
use Prim.Native.Nat.{Ordering}
use torfoil.Prelude.{
  take, drop, ◌-◌, ℕ, ◌+◌, ◌%◌, ◌^◌, ◌∷◌, ◌≤◌, ◌<◌, Bool, true, false, not, ◌||◌, Option, none,
  some, List, [], leb, ltb, length, Bytes, codes, ◌≡◌, refl, subst, arith,
}
use torfoil.Prelude.Fail.{
  fail, done, Gives, Gives-bind, Gives-done, Gives-mono, Gives-fail, Gives-unless,
}
use torfoil.Bencode.{Value, Result, ok, err, bdecode, compare_keys}
use torfoil.Bencode.Order.{compare_keys_eq}
use torfoil.Bencode.Spans.{span_of, Inner, bdecode-Inner}
use torfoil.Bencode.Lookup.{find, find_dict}
use torfoil.MetaInfo.{MetaInfo, FileEntry}
use torfoil.MetaInfo.Files.{Tiled}
use torfoil.MetaInfo.Read.{
  TorrentError, raw_bytes, is_dict, decode, info_of, same_text, parse_torrent, parse_info_dict,
}
use torfoil.MetaInfo.Accepted.{IsAccepted, find-Inner, read_info-IsAccepted}

trackers-IsAccepted :
    (m : MetaInfo) (trackers : List Bytes)
    → IsAccepted m
    → IsAccepted (record m { trackers = trackers })
trackers-IsAccepted m trackers h = record {
  consistent = record {
    piece_length_pos = h.consistent.piece_length_pos;
    piece_length-le = h.consistent.piece_length-le;
    total_pos = h.consistent.total_pos;
    total_fits = h.consistent.total_fits;
    few = h.consistent.few;
    enough = h.consistent.enough;
    none_spare = h.consistent.none_spare;
  };
  tiled = h.tiled;
  safe = h.safe;
  named = h.named;
}

decode-Inner : (buf : Bytes) → Gives (λ v. (bdecode buf ≡ ok v) × Inner v) (decode buf)
decode-Inner buf = cases (bdecode buf) refl
  where
    cases :
        (r : Result Value)
        → bdecode buf ≡ r
        → Gives
            (λ v. (bdecode buf ≡ ok v) × Inner v)
            (elim r [ err e ↦ fail (TorrentError.bencode e) | ok root ↦ done root ])
    cases (err e) at = Gives-fail
    cases (ok v) at = Gives-done (at, (bdecode-Inner buf v at).3)

find_dict-find :
    (key : Bytes) (root v : Value) → find_dict key root ≡ some v → find key root ≡ some v
unfolding find_dict
find_dict-find key root v e = cases (find key root) e
  where
    cases :
        (found : Option Value)
        → (elim found [ some (Value.dict d s) ↦ some (Value.dict d s) | _ ↦ none ]) ≡ some v
        → found ≡ some v
    cases none e = cc
    cases (some (Value.int n s)) e = cc
    cases (some (Value.str b s)) e = cc
    cases (some (Value.list vs s)) e = cc
    cases (some (Value.dict d s)) e = e

info_of-Inner :
    (root : Value)
    → Inner root
    → Gives (λ v. (find_dict (codes "info") root ≡ some v) × Inner v) (info_of root)
info_of-Inner root inner = cases (find_dict (codes "info") root) refl
  where
    cases :
        (found : Option Value)
        → find_dict (codes "info") root ≡ found
        → Gives
            (λ v. (find_dict (codes "info") root ≡ some v) × Inner v)
            (elim found [ none ↦ fail TorrentError.info_missing | some info ↦ done info ])
    cases none at = Gives-fail
    cases (some v) at =
        Gives-done (at, find-Inner (codes "info") root v inner (find_dict-find _ root v at))

same_text-eq : (a b : Bytes) → same_text a b ≡ true → a ≡ b
same_text-eq a b e = compare_keys_eq a b (cases (compare_keys a b) e)
  where
    cases : (o : Ordering) → (elim o [ Ordering.eq ↦ true | _ ↦ false ]) ≡ true → o ≡ Ordering.eq
    cases Ordering.lt e = cc
    cases Ordering.eq e = refl
    cases Ordering.gt e = cc

span_checked : (begin end n : ℕ) → (leb end begin || ltb n end) ≡ false → (begin < end) × (end ≤ n)
span_checked begin end n h = ground arith

not-false : (b : Bool) → not b ≡ false → b ≡ true
not-false true h = refl
not-false false h = cc

module _ (sha1 : Bytes → Bytes) where
  -- The hash is that of the bytes from which `info` was decoded, where they stand in the buffer.
  abbrev pub HashesInfo : Bytes → MetaInfo → Type 0
  HashesInfo buf m =
      (root : Value) × (info : Value) × (bdecode buf ≡ ok root)
      × (find_dict (codes "info") root ≡ some info)
      × ((span_of info).raw_begin < (span_of info).raw_end)
      × ((span_of info).raw_end ≤ length buf)
      × (m.info_hash
          ≡ sha1 (
              take ((span_of info).raw_end - (span_of info).raw_begin)
                (drop (span_of info).raw_begin buf)))

  parse_torrent-Gives :
      (buf : Bytes) (out : MetaInfo)
      → out.files ≡ []
      → Gives (λ m. IsAccepted m × HashesInfo buf m) (parse_torrent sha1 buf out)
  unfolding parse_torrent
  parse_torrent-Gives buf out fresh = Gives-bind (decode-Inner buf) (λ root (decoded, inner).
      Gives-unless (not (is_dict root)) TorrentError.root_not_dict (λ _.
        Gives-bind (info_of-Inner root inner) (λ info (found, within).
          Gives-unless
            (leb (span_of info).raw_end (span_of info).raw_begin
              || ltb (length buf) (span_of info).raw_end)
            TorrentError.bad_info_span
            (λ inside.
              Gives-bind
                (read_info-IsAccepted info
                  (record out { info_hash = sha1 (raw_bytes buf (span_of info)) }) within fresh)
                (λ m (accepted, hash). Gives-done (
                  trackers-IsAccepted m _ accepted,
                  (
                    root,
                    info,
                    decoded,
                    found,
                    (span_checked _ _ _ inside).0,
                    (span_checked _ _ _ inside).1,
                    hash,
                  ),
                ))))))

  -- A torrent file that is accepted is consistent: its pieces are as many as its size needs, its files
  -- stand one behind the other and make up its size, as far as 64 bits can tell, each part of their
  -- paths and its name is a safe file name; and its hash is that of the bytes of its `info`, which
  -- stand inside the file.
  pub parse_torrent-IsAccepted :
      (buf : Bytes) (out m : MetaInfo)
      → out.files ≡ []
      → parse_torrent sha1 buf out ≡ done m
      → IsAccepted m × HashesInfo buf m
  parse_torrent-IsAccepted buf out m fresh e =
      (subst (Gives (λ m. IsAccepted m × HashesInfo buf m)) e
        (parse_torrent-Gives buf out fresh)).outcome

  parse_info_dict-Gives :
      (info_buf expected : Bytes) (out : MetaInfo)
      → out.files ≡ []
      → Gives
          (λ m. IsAccepted m × (m.info_hash ≡ expected) × (sha1 info_buf ≡ expected))
          (parse_info_dict sha1 info_buf expected out)
  unfolding parse_info_dict
  parse_info_dict-Gives info_buf expected out fresh =
      Gives-unless (not (same_text (sha1 info_buf) expected)) TorrentError.hash_differs (λ same.
        Gives-bind (decode-Inner info_buf) (λ info (decoded, inner).
          Gives-unless (not (is_dict info)) TorrentError.info_not_dict (λ _.
            Gives-mono
              (λ m (accepted, hash).
                (accepted, hash, same_text-eq (sha1 info_buf) expected (not-false _ same)))
              (read_info-IsAccepted info (record out { info_hash = expected }) inner fresh))))

  -- Metadata that a peer sent is accepted only if its hash is the one asked for, which the torrent then
  -- has, and the torrent is consistent.
  pub parse_info_dict-IsAccepted :
      (info_buf expected : Bytes) (out m : MetaInfo)
      → out.files ≡ []
      → parse_info_dict sha1 info_buf expected out ≡ done m
      → IsAccepted m × (m.info_hash ≡ expected) × (sha1 info_buf ≡ expected)
  parse_info_dict-IsAccepted info_buf expected out m fresh e =
      (subst (Gives _) e (parse_info_dict-Gives info_buf expected out fresh)).outcome

abbrev pub total_length : List FileEntry → ℕ
total_length [] = 0
total_length (f ∷ files) = f.length + total_length files

Tiled-total_length :
    (files : List FileEntry) (start end : ℕ)
    → start < 2 ^ 64
    → Tiled start files end
    → end ≡ (start + total_length files) % 2 ^ 64
Tiled-total_length [] start end small h = omega arith
Tiled-total_length (f ∷ files) start end small (here, there) =
    omega (arith, Tiled-total_length files ((start + f.length) % 2 ^ 64) end (omega arith) there)

-- The size of a torrent file that is accepted is the sum of the lengths of its files modulo 2^64, and
-- that may be less than the sum.
pub parse_torrent-total_size :
    (sha1 : Bytes → Bytes) (buf : Bytes) (out m : MetaInfo)
    → out.files ≡ []
    → parse_torrent sha1 buf out ≡ done m
    → m.total_size ≡ total_length m.files % 2 ^ 64
parse_torrent-total_size sha1 buf out m fresh e =
    let accepted = (parse_torrent-IsAccepted sha1 buf out m fresh e).0 in
    omega (arith, Tiled-total_length m.files 0 m.total_size (omega arith) accepted.tiled)
