-- ===== src/MetaInfo/Files.antt =====
-- source/bt/metainfo.cpp: the entries of the files of a torrent that `read_info` accepts.
use torfoil.Prelude.{
  ℕ, ◌+◌, ◌%◌, ◌^◌, ◌<◌, List, [], ◌∷◌, Bytes, All, ◌≡◌, ◌≢◌, refl, subst, arith, All-append,
  Option, none, some, codes,
}
use torfoil.Prelude.Fail.{fail, done, ◌>>=◌, >>=-done, unless-done}
use torfoil.Bytes.Text.{split}
use torfoil.Bytes.Text.Laws.{Lacks, split-append, split_whole}
use torfoil.Bytes.Sanitize.{sanitize_filename, IsAllowed}
use torfoil.Bytes.Sanitize.Names.{IsFileName, sanitize_filename-IsFileName}
use torfoil.Bencode.{Integer, plus, minus, Value, Items}
use torfoil.Bencode.Lookup.{find_int, find_list}
use torfoil.MetaInfo.{FileEntry}
use torfoil.MetaInfo.Read.{TorrentError, add_part, read_path, file_path, read_file, read_files}

-- Each part of the path between two slashes can stand as a name on the card.
abbrev pub IsSafePath : Bytes → Type 0
IsSafePath path = All IsFileName (split path b'/')

-- The files stand one behind the other from `start` to `end`, as far as 64 bits can tell.
abbrev pub Tiled : ℕ → List FileEntry → ℕ → Type 0
Tiled start [] end = start ≡ end
Tiled start (f ∷ files) end = (f.offset ≡ start) × Tiled ((start + f.length) % 2 ^ 64) files end

IsAllowed-Lacks : (s : Bytes) → All IsAllowed s → Lacks b'/' s
IsAllowed-Lacks [] h = tt
IsAllowed-Lacks (c ∷ s) (h, hs) = (h.2, IsAllowed-Lacks s hs)

pub IsFileName-IsSafePath : (s : Bytes) → IsFileName s → IsSafePath s
IsFileName-IsSafePath s h = rw (split_whole s b'/' (IsAllowed-Lacks s h.allowed)) (h, tt)

-- What has been joined is nothing or a safe path.
add_part-IsSafePath :
    (joined part : Bytes)
    → (joined ≢ [] → IsSafePath joined)
    → IsFileName part
    → IsSafePath (add_part joined part)
add_part-IsSafePath [] part h name = IsFileName-IsSafePath part name
add_part-IsSafePath (c ∷ joined) part h name =
    rw (split-append (c ∷ joined) part b'/')
      (All-append IsFileName _ _ (h (cc)) (IsFileName-IsSafePath part name))

read_path-IsSafePath :
    (joined : Bytes) (parts : Items) (path : Bytes)
    → IsSafePath joined
    → read_path joined parts ≡ done path
    → IsSafePath path
unfolding read_path
read_path-IsSafePath joined Items.no_items path h e =
    let same : joined ≡ path = cc in subst IsSafePath same h
read_path-IsSafePath joined (Items.item (Value.str part s) rest) path h e =
    let (_, later) = unless-done _ _ _ e in
    read_path-IsSafePath (add_part joined (sanitize_filename part)) rest path
      (add_part-IsSafePath joined _ (λ _. h) (sanitize_filename-IsFileName part)) later
read_path-IsSafePath joined (Items.item (Value.int n s) rest) path h e = cc
read_path-IsSafePath joined (Items.item (Value.list vs s) rest) path h e = cc
read_path-IsSafePath joined (Items.item (Value.dict d s) rest) path h e = cc

path-IsSafePath :
    (part : Value) (rest : Items) (path : Bytes)
    → read_path [] (Items.item part rest) ≡ done path
    → IsSafePath path
unfolding read_path
path-IsSafePath (Value.str part s) rest path e =
    let (_, later) = unless-done _ _ _ e in
    read_path-IsSafePath (sanitize_filename part) rest path
      (IsFileName-IsSafePath _ (sanitize_filename-IsFileName part)) later
path-IsSafePath (Value.int n s) rest path e = cc
path-IsSafePath (Value.list vs s) rest path e = cc
path-IsSafePath (Value.dict d s) rest path e = cc

file_path-IsSafePath : (f : Value) (path : Bytes) → file_path f ≡ done path → IsSafePath path
unfolding file_path
file_path-IsSafePath f path e = cases (find_list (codes "path") f) e
  where
    cases :
        (found : Option Items)
        → (elim found [
          | none ↦ fail TorrentError.bad_file
          | some Items.no_items ↦ fail TorrentError.bad_file
          | some (Items.item part rest) ↦ read_path [] (Items.item part rest)
        ])
          ≡ done path
        → IsSafePath path
    cases none e = cc
    cases (some Items.no_items) e = cc
    cases (some (Items.item part rest)) e = path-IsSafePath part rest path e

read_file_lem :
    (offset : ℕ) (f : Value) (entry : FileEntry)
    → read_file offset f ≡ done entry
    → (entry.offset ≡ offset) × IsSafePath entry.path
unfolding read_file
read_file_lem offset f entry e = cases (find_int (codes "length") f) e
  where
    cases :
        (found : Option Integer)
        → (elim found [
          | none ↦ fail TorrentError.bad_file
          | some (minus n) ↦ fail TorrentError.bad_file
          | some (plus n) ↦
              file_path f >>= λ path. done (record { path = path; length = n; offset = offset })
        ])
          ≡ done entry
        → (entry.offset ≡ offset) × IsSafePath entry.path
    cases none e = cc
    cases (some (minus n)) e = cc
    cases (some (plus n)) e =
        let (path, found, made) = >>=-done (file_path f) _ e in
        let made' : done (record { path = path; length = n; offset = offset }) ≡ done entry =
          made in
        let same : record { path = path; length = n; offset = offset } ≡ entry = cc in
        subst (λ x. (x.offset ≡ offset) × IsSafePath x.path) same
          (refl, file_path-IsSafePath f path found)

-- What `read_files` makes from an offset on.
pub read_files_lem :
    (offset : ℕ) (items : Items) (files : List FileEntry) (end : ℕ)
    → offset < 2 ^ 64
    → read_files offset items ≡ done (files, end)
    → Tiled offset files end × All (λ f. IsSafePath f.path) files × (end < 2 ^ 64)
unfolding read_files
read_files_lem offset Items.no_items files end small e =
    let same : [] ≡ files = cc in
    let last : offset ≡ end = cc in
    subst (λ fs. Tiled offset fs end × All (λ f. IsSafePath f.path) fs × (end < 2 ^ 64)) same
      (last, tt, omega arith)
read_files_lem offset (Items.item f rest) files end small e =
    let (entry, first, more) = >>=-done (read_file offset f) _ e in
    let ((entries, last), later, made) =
      >>=-done (read_files ((offset + entry.length) % 2 ^ 64) rest) _ more in
    let same : entry ∷ entries ≡ files = cc in
    let stop : last ≡ end = cc in
    let here = read_file_lem offset f entry first in
    let there = read_files_lem ((offset + entry.length) % 2 ^ 64) rest entries end (omega arith) (
      subst (λ n. read_files ((offset + entry.length) % 2 ^ 64) rest ≡ done (entries, n)) stop
        later) in
    subst (λ fs. Tiled offset fs end × All (λ f. IsSafePath f.path) fs × (end < 2 ^ 64)) same
      ((here.0, there.0), (here.1, there.1), there.2)
