-- ===== src/Tests/Bytes.antt =====
-- source/util/bytes.cpp at fixed inputs.
use torfoil.Prelude.{
  ◌*◌, ◌≡◌, ◌≢◌, refl, some, [], ◌∷◌, ◌++◌, arith, length, All, Bytes, IsByte, codes, replicate,
  inl, true,
}
use torfoil.Bytes.Hex.{
  to_hex, from_hex, url_encode, url_decode, to_lower, lower_all, IsUrlSafe, from_hex-to_hex,
  from_hex_sound, url_decode-url_encode, url_encode-IsUrlSafe,
}
use torfoil.Bytes.BigEndian.{rd_be16, rd_be32, rd_be64, wr_be16, wr_be32, wr_be64, rd_be-wr_be}
use torfoil.Bytes.Sanitize.{drop_back, keep_front, sanitize_filename, EndsClean}
use torfoil.Bytes.Sanitize.Names.{
  IsFileName, sanitize_filename-IsFileName, sanitize_filename-EndsClean, sanitize_filename_cut,
}
use torfoil.Bytes.Text.{trim, split, iequals}
use torfoil.Bytes.Text.Laws.{Lacks, join, split_lem}

abbrev some_bytes : Bytes
some_bytes = 0 ∷ 47 ∷ 255 ∷ []

to_hex_run : to_hex some_bytes ≡ codes "002fff"
unfolding to_hex
to_hex_run = refl

from_hex_run : from_hex (codes "002FfF") 3 ≡ some some_bytes
unfolding from_hex
from_hex_run = refl

url_encode_run : url_encode some_bytes ≡ codes "%00%2f%ff"
unfolding url_encode
url_encode_run = refl

url_decode_run : url_decode (codes "a%20b+c%zz%4") ≡ codes "a b c%zz%4"
unfolding url_decode
url_decode_run = refl

sanitize_run : sanitize_filename (codes "a/b:c. .") ≡ codes "a_b_c"
unfolding sanitize_filename
sanitize_run = refl

sanitize_dots : sanitize_filename (codes "..") ≡ codes "_"
unfolding sanitize_filename
sanitize_dots = refl

trim_run : trim (codes "  a b ") ≡ codes "a b"
unfolding trim drop_back keep_front
trim_run = refl

iequals_run : iequals (codes "BtIh") (codes "btih") ≡ true
unfolding iequals to_lower
iequals_run = refl

from_hex-to_hex_example : from_hex (to_hex some_bytes) 3 ≡ some some_bytes
from_hex-to_hex_example = from_hex-to_hex some_bytes (omega arith)

from_hex_sound_example :
    (length some_bytes ≡ 3)
    × (length (codes "002FfF") ≡ 3 * 2)
    × All IsByte some_bytes
    × (to_hex some_bytes ≡ lower_all (codes "002FfF"))
from_hex_sound_example = from_hex_sound (codes "002FfF") 3 some_bytes from_hex_run

url_decode-url_encode_example : url_decode (url_encode some_bytes) ≡ some_bytes
url_decode-url_encode_example = url_decode-url_encode some_bytes (omega arith)

rd_be-wr_be_example :
    (rd_be16 (wr_be16 6881 ++ []) ≡ 6881)
    × (rd_be32 (wr_be32 65536 ++ []) ≡ 65536)
    × (rd_be64 (wr_be64 0x41727101980 ++ []) ≡ 0x41727101980)
rd_be-wr_be_example =
    rd_be-wr_be 6881 65536 0x41727101980 [] (omega arith) (omega arith) (omega arith)

sanitize_filename-IsFileName_example : IsFileName (sanitize_filename (codes "../etc/passwd"))
sanitize_filename-IsFileName_example = sanitize_filename-IsFileName (codes "../etc/passwd")

sanitize_filename-EndsClean_example : EndsClean (sanitize_filename (codes "name . ."))
sanitize_filename-EndsClean_example = sanitize_filename-EndsClean (codes "name . .") (omega arith)

abbrev long_stem : Bytes
long_stem = replicate 199 b'a'

sanitize_filename_cut_example :
    sanitize_filename (long_stem ++ b'.' ∷ b'b' ∷ []) ≡ long_stem ++ b'.' ∷ []
sanitize_filename_cut_example =
    sanitize_filename_cut long_stem b'.' b'b' refl (omega arith) (inl refl) (omega arith)
      (omega arith) (omega arith)

split_lem_example :
    (split (codes "a&&b") b'&' ≢ [])
    × All (Lacks b'&') (split (codes "a&&b") b'&')
    × (join b'&' (split (codes "a&&b") b'&') ≡ codes "a&&b")
split_lem_example = split_lem (codes "a&&b") b'&'

url_encode-IsUrlSafe_example : All IsUrlSafe (url_encode some_bytes)
url_encode-IsUrlSafe_example = url_encode-IsUrlSafe some_bytes (omega arith)
