-- ===== src/Incoming/Valid.antt =====
-- The invariant of a partly received message, and that every packet keeps it, in C `int` arithmetic.
use connected_homa.Prelude.{ℕ, ◌≡◌, refl, sym, subst, inl, inr, Bool, arith, Option-cases}
use connected_homa.Prelude.Word.{add32}
use connected_homa.Rpc.{Packet, MessageIn}
use connected_homa.Incoming.{Metrics, fill_gaps, add_packet, homa_add_packet}
use connected_homa.Incoming.Account.{IsValid, add_plain-IsValid}
use connected_homa.Incoming.Agree.{Fits, add_packet-add_plain}

-- A packet, kept or discarded, leaves a well-formed message well formed, when the length of the message and
-- the end of the packet are below 2^31.
pub add_packet-IsValid :
    (memory : Bool) (now : ℕ) (m : MessageIn) (p : Packet)
    → IsValid m
    → Fits m p
    → IsValid (add_packet memory now m p).0
add_packet-IsValid memory now m p v f =
    subst (λ r. IsValid r.0) (sym (add_packet-add_plain memory now m p v f))
      (add_plain-IsValid memory now m p v)

pub add_packet-frame :
    (memory : Bool) (now : ℕ) (m : MessageIn) (p : Packet)
    → let m' = (add_packet memory now m p).0 in
      (m'.length ≡ m.length) × (m'.num_bpages ≡ m.num_bpages) × (m'.bpage_offsets ≡ m.bpage_offsets)
unfolding add_packet
add_packet-frame memory now m p =
    elim (Option-cases (fill_gaps memory now p.offset (add32 p.offset p.len) m.gaps)) [
      | inl dry ↦ ground arith
      | inr (gaps, e) ↦ ground arith
    ]

-- The message after `homa_add_packet` is that after `add_packet`.
pub homa_add_packet-message :
    (memory : Bool) (now : ℕ) (m : MessageIn) (c : Metrics) (p : Packet)
    → (homa_add_packet memory now m c p).0 ≡ (add_packet memory now m p).0
unfolding homa_add_packet
homa_add_packet-message memory now m c p = refl
