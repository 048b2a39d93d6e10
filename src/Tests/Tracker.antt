-- ===== src/Tests/Tracker.antt =====
-- source/bt/tracker.cpp at fixed inputs.
use torfoil.Prelude.{◌≡◌, refl, true, List, none, [], ◌∷◌, codes, length, arith}
use torfoil.Prelude.Fail.{done}
use torfoil.Tracker.{
  Endpoint, AnnounceEvent, AnnounceRequest, AnnounceResult, announce_packet, is_reply, read_reply,
  read_answer,
}
use torfoil.Tracker.Laws.{reply_of, read_reply-reply_of}

abbrev two_peers : List Endpoint
two_peers = record { ipv4 = 0x01020304; port = 6881 } ∷ record { ipv4 = 7; port = 80 } ∷ []

abbrev answer : AnnounceResult
answer = record { interval_s = 10; seeders = 5; leechers = 2; peers = two_peers }

read_reply-reply_of_example :
    (is_reply 1 77 (reply_of 77 answer) ≡ true)
    × (read_reply (reply_of 77 answer) ≡ done (record answer { interval_s = 60 }))
read_reply-reply_of_example = read_reply-reply_of 77 answer (omega arith) (
  omega arith,
  omega arith,
  omega arith,
  ((refl, omega arith, omega arith), ((refl, omega arith, omega arith), tt)),
)

read_answer_run :
    read_answer (λ name. none) (codes "d8:completei5e8:intervali9e5:peers7:abcdEF.e")
    ≡ done (record {
      interval_s = 60;
      seeders = 5;
      leechers = 0;
      peers = record { ipv4 = 0x61626364; port = 0x4546 } ∷ [];
    })
unfolding read_answer
read_answer_run = refl

abbrev asked : AnnounceRequest
asked = record {
  info_hash = codes "abcdefghijklmnopqrst";
  peer_id = codes "-TF0100-abcdefghijkl";
  port = 6881;
  uploaded = 1;
  downloaded = 2;
  left = 3;
  event = AnnounceEvent.started;
  num_want = 60;
  key = 9;
}

length-announce_packet_run : length (announce_packet 1 2 asked) ≡ 98
unfolding announce_packet
length-announce_packet_run = refl
