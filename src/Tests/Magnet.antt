-- ===== src/Tests/Magnet.antt =====
-- source/bt/magnet.cpp at fixed inputs.
use torfoil.Prelude.{arith, [], ◌∷◌, ◌++◌, ◌≡◌, refl, Bytes, codes}
use torfoil.Prelude.Fail.{fail, done}
use torfoil.Bytes.Sanitize.{drop_back, keep_front}
use torfoil.Magnet.{MagnetLink, MagnetError, parse_magnet}
use torfoil.Bytes.Hex.{to_hex}
use torfoil.Magnet.Links.{parse_magnet-to_hex}
use torfoil.Magnet.Laws.{HashFrom, parse_magnet-HashFrom}

abbrev fresh : MagnetLink
fresh = record {
  info_hash = [];
  display_name = [];
  trackers = [];
  web_seeds = [];
  exact_length = 0;
}

abbrev link : Bytes
link =
    codes
      " magnet:?xt=urn:btih:ABCDEFGHIJKLMNOPQRSTUVWXYZ234567&dn=a%20b&tr=udp%3A%2F%2Ft&xl=12&tr=&x "

abbrev link_read : MagnetLink
link_read = record {
  info_hash =
      0 ∷ 68 ∷ 50 ∷ 20 ∷ 199 ∷ 66 ∷ 84 ∷ 182 ∷ 53 ∷ 207 ∷ 132 ∷ 101 ∷ 58 ∷ 86 ∷ 215 ∷ 198 ∷ 117
      ∷ 190 ∷ 119 ∷ 223 ∷ [];
  display_name = codes "a b";
  trackers = codes "udp://t" ∷ [];
  web_seeds = [];
  exact_length = 12;
}

parse_magnet_run : parse_magnet link fresh ≡ done link_read
unfolding parse_magnet drop_back keep_front
parse_magnet_run = refl

parse_magnet_two :
    parse_magnet (codes "magnet:?xt=urn:btmh:1220") fresh ≡ fail MagnetError.version_two
unfolding parse_magnet drop_back keep_front
parse_magnet_two = refl

parse_magnet-HashFrom_example : HashFrom link link_read.info_hash
parse_magnet-HashFrom_example = parse_magnet-HashFrom link fresh link_read parse_magnet_run

parse_magnet-to_hex_example :
    parse_magnet (codes "magnet:?xt=urn:btih:" ++ to_hex link_read.info_hash) fresh
    ≡ done (record fresh { info_hash = link_read.info_hash })
parse_magnet-to_hex_example = parse_magnet-to_hex link_read.info_hash fresh refl (
  omega arith,
  (
    omega arith,
    (
      omega arith,
      (
        omega arith,
        (
          omega arith,
          (
            omega arith,
            (
              omega arith,
              (
                omega arith,
                (
                  omega arith,
                  (
                    omega arith,
                    (
                      omega arith,
                      (
                        omega arith,
                        (
                          omega arith,
                          (
                            omega arith,
                            (
                              omega arith,
                              (
                                omega arith,
                                (omega arith, (omega arith, (omega arith, (omega arith, tt)))),
                              ),
                            ),
                          ),
                        ),
                      ),
                    ),
                  ),
                ),
              ),
            ),
          ),
        ),
      ),
    ),
  ),
)
