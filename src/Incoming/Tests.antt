-- ===== src/Incoming/Tests.antt =====
-- Runs of `homa_add_packet`, and the theorems at them.
use connected_homa.Prelude.{ℕ, ◌≡◌, refl, true, false, ◌&&◌, ◌||◌, none, [], ◌∷◌, arith}
use connected_homa.Prelude.Word.{lt32, le32, add32, sub32}
use connected_homa.Rpc.{Packet, MessageIn}
use connected_homa.Incoming.{
  homa_gap_new, fill_gaps, split_gap, keep, add_packet, kept, discarded, homa_add_packet,
}
use connected_homa.Incoming.Account.{IsValid}
use connected_homa.Incoming.Agree.{Fits}
use connected_homa.Incoming.Valid.{add_packet-IsValid}
use connected_homa.Incoming.Reception.{received, in_packet, add_packet-kept}

-- Ten bytes, of which 2 to 5 and the last two are missing.
abbrev holed : MessageIn
holed = record {
  length = 10;
  packets = [];
  recv_end = 8;
  gaps = record { start = 2; end = 6; time = 5 } ∷ [];
  bytes_remaining = 6;
  granted = 10;
  rec_incoming = 0;
  rank = none;
  priority = 0;
  resend_all = false;
  birth = 0;
  num_bpages = 1;
  bpage_offsets = 0 ∷ [];
}

holed-IsValid : IsValid holed
holed-IsValid = omega arith

abbrev packet : ℕ → ℕ → Packet
packet offset len = record { offset = offset; len = len; retransmit = true }

holed-Fits : Fits holed (packet 3 2)
holed-Fits = omega arith

-- A packet in the middle of the gap splits it.
abbrev split : MessageIn
split = record holed {
  packets = packet 3 2 ∷ [];
  gaps = record { start = 2; end = 3; time = 5 } ∷ record { start = 5; end = 6; time = 5 } ∷ [];
  bytes_remaining = 4;
}

add_packet-split : add_packet true 9 holed (packet 3 2) ≡ (split, kept)
unfolding add_packet fill_gaps split_gap keep homa_gap_new lt32 le32 add32 sub32
add_packet-split = refl

add_packet_overlap : add_packet true 9 holed (packet 1 3) ≡ (holed, discarded)
unfolding add_packet fill_gaps split_gap keep homa_gap_new lt32 le32 add32 sub32
add_packet_overlap = refl

homa_add_packet_counts :
    (homa_add_packet true 9 holed
      (record { resent_discards = 0; packet_discards = 0; resent_packets_used = 0 })
      (packet 1 3)).1.resent_discards
    ≡ 1
unfolding homa_add_packet lt32 le32 add32 sub32
homa_add_packet_counts = refl

add_packet-IsValid_example : IsValid (add_packet true 9 holed (packet 3 2)).0
add_packet-IsValid_example = add_packet-IsValid true 9 holed (packet 3 2) holed-IsValid holed-Fits

add_packet-kept_example :
    (received split 4 ≡ (received holed 4 || in_packet (packet 3 2) 4))
    × ((received holed 4 && in_packet (packet 3 2) 4) ≡ false)
add_packet-kept_example =
    add_packet-kept true 9 holed (packet 3 2) split 4 holed-IsValid holed-Fits add_packet-split

-- A packet from the network whose end passes 2^31 - 1 counts as one that does not pass the end of the message.
add_packet_wraps : (add_packet true 9 holed (packet 2147483640 100)).0.recv_end ≡ 2147483740
unfolding add_packet fill_gaps split_gap keep homa_gap_new lt32 le32 add32 sub32
add_packet_wraps = refl

-- One with a negative offset is discarded.
add_packet_negative : add_packet true 9 holed (packet 4294967290 4) ≡ (holed, discarded)
unfolding add_packet fill_gaps split_gap keep homa_gap_new lt32 le32 add32 sub32
add_packet_negative = refl
