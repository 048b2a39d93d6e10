-- ===== src/Tests/MetaInfo.antt =====
-- source/bt/metainfo.cpp at fixed inputs.
use torfoil.Prelude.{◌%◌, ◌^◌, Bytes, take, true, false, [], ◌∷◌, ◌≡◌, ◌≢◌, ◌↔◌, Among, refl, codes}
use torfoil.Bencode.{Span, Value, Items, Fields, compare_keys}
use torfoil.Bencode.Lookup.{find_str, find_list}
use torfoil.Prelude.Fail.{done}
use torfoil.MetaInfo.{MetaInfo}
use torfoil.MetaInfo.Read.{parse_torrent, parse_info_dict}
use torfoil.MetaInfo.Accepted.{IsAccepted}
use torfoil.MetaInfo.Torrents.{
  total_length, parse_torrent-total_size, HashesInfo, parse_torrent-IsAccepted,
  parse_info_dict-IsAccepted,
}
use torfoil.MetaInfo.Trackers.{collect_trackers}
use torfoil.MetaInfo.Trackers.Adds.{IsDistinct}
use torfoil.MetaInfo.Trackers.Collected.{Announces, collect_trackers-IsDistinct}

-- The second URL comes again, in another tier.
abbrev announcing : Value
announcing =
    let s : Span = record { raw_begin = 0; raw_end = 1 } in
    Value.dict
      (Fields.field (codes "announce") (Value.str (codes "udp://a") s) (
        Fields.field (codes "announce-list")
          (Value.list
            (Items.item
              (Value.list
                (Items.item (Value.str (codes "udp://b") s)
                  (Items.item (Value.str (codes "udp://a") s) Items.no_items))
                s)
              (Items.item (Value.list (Items.item (Value.str (codes "udp://b") s) Items.no_items) s)
                Items.no_items))
            s)
          Fields.no_fields))
      s

collect_trackers_run : collect_trackers announcing [] ≡ codes "udp://a" ∷ codes "udp://b" ∷ []
unfolding collect_trackers find_str find_list compare_keys
collect_trackers_run = refl

collect_trackers-IsDistinct_example :
    IsDistinct (collect_trackers announcing [])
    × ((url : Bytes)
        → Among url (collect_trackers announcing []) ↔ ((url ≢ []) × Announces announcing url))
collect_trackers-IsDistinct_example = collect_trackers-IsDistinct announcing

abbrev blank : MetaInfo
blank = record {
  info_hash = [];
  name = [];
  piece_length = 0;
  piece_hashes = [];
  files = [];
  total_size = 0;
  single_file = false;
  is_private = false;
  trackers = [];
}

-- A stand-in for the hash: the first bytes.
abbrev front : Bytes → Bytes
front b = take 20 b

-- Two files, in pieces of 4 bytes.
abbrev two_files : Bytes
two_files =
    codes
      "d4:infod5:filesld6:lengthi3e4:pathl1:a3:../eed6:lengthi2e4:pathl1:beee4:name1:n12:piece lengthi4e6:pieces40:0123456789012345678901234567890123456789ee"

abbrev two_files_read : MetaInfo
two_files_read = record blank {
  info_hash = codes "d5:filesld6:lengthi3";
  name = codes "n";
  piece_length = 4;
  piece_hashes = codes "01234567890123456789" ∷ codes "01234567890123456789" ∷ [];
  files =
      record { path = codes "a/.._"; length = 3; offset = 0 }
      ∷ record { path = codes "b"; length = 2; offset = 3 }
      ∷ [];
  total_size = 5;
}

parse_torrent_run : parse_torrent front two_files blank ≡ done two_files_read
unfolding parse_torrent
parse_torrent_run = refl

parse_torrent-IsAccepted_example :
    IsAccepted two_files_read × HashesInfo front two_files two_files_read
parse_torrent-IsAccepted_example =
    parse_torrent-IsAccepted front two_files blank two_files_read refl parse_torrent_run

abbrev info_part : Bytes
info_part = codes "d6:lengthi9e4:name1:n12:piece lengthi9e6:pieces20:01234567890123456789e"

abbrev info_read : MetaInfo
info_read = record blank {
  info_hash = codes "d6:lengthi9e4:name1:";
  name = codes "n";
  piece_length = 9;
  piece_hashes = codes "01234567890123456789" ∷ [];
  files = record { path = codes "n"; length = 9; offset = 0 } ∷ [];
  total_size = 9;
  single_file = true;
}

parse_info_dict_run :
    parse_info_dict front info_part (codes "d6:lengthi9e4:name1:") blank ≡ done info_read
unfolding parse_info_dict
parse_info_dict_run = refl

parse_info_dict-IsAccepted_example :
    IsAccepted info_read
    × (info_read.info_hash ≡ codes "d6:lengthi9e4:name1:")
    × (front info_part ≡ codes "d6:lengthi9e4:name1:")
parse_info_dict-IsAccepted_example =
    parse_info_dict-IsAccepted front info_part (codes "d6:lengthi9e4:name1:") blank info_read refl
      parse_info_dict_run

-- Three files of 2^63 - 1, 2^63 - 1 and 6 bytes, which the program takes for 4 bytes in all.
abbrev wrapping : Bytes
wrapping =
    codes
      "d4:infod5:filesld6:lengthi9223372036854775807e4:pathl1:aeed6:lengthi9223372036854775807e4:pathl1:beed6:lengthi6e4:pathl1:ceee4:name1:n12:piece lengthi4e6:pieces20:01234567890123456789ee"

abbrev wrapping_read : MetaInfo
wrapping_read = record blank {
  info_hash = codes "d5:filesld6:lengthi9";
  name = codes "n";
  piece_length = 4;
  piece_hashes = codes "01234567890123456789" ∷ [];
  files =
      record { path = codes "a"; length = 9223372036854775807; offset = 0 }
      ∷ record { path = codes "b"; length = 9223372036854775807; offset = 9223372036854775807 }
      ∷ record { path = codes "c"; length = 6; offset = 18446744073709551614 }
      ∷ [];
  total_size = 4;
}

parse_torrent_wraps : parse_torrent front wrapping blank ≡ done wrapping_read
unfolding parse_torrent
parse_torrent_wraps = refl

parse_torrent-total_size_example :
    wrapping_read.total_size ≡ total_length wrapping_read.files % 2 ^ 64
parse_torrent-total_size_example =
    parse_torrent-total_size front wrapping blank wrapping_read refl parse_torrent_wraps
