-- ===== src/Incoming/Agree.antt =====
-- Where no sum reaches 2^31, `add_packet` computes what its specification on unbounded numbers says.
use connected_homa.Prelude.{
  ℕ, ◌+◌, ◌^◌, ◌≤◌, ◌<◌, ◌≡◌, refl, ap, ◌∙◌, inl, inr, Bool, false, List, [], ◌∷◌, ltb, ◌==◌, arith,
  Bool-cases, Option-cases,
}
use connected_homa.Prelude.Word.{lt32_small, le32_small, add32_small, sub32_small}
use connected_homa.Rpc.{Gap, Packet, MessageIn}
use connected_homa.Incoming.{homa_gap_new, fill_gaps, keep, add_packet}
use connected_homa.Incoming.Plain.{fill_plain, keep_plain, add_plain}
use connected_homa.Incoming.Fill.{fill_plain-Fill}
use connected_homa.Incoming.Account.{Between, Between-le, IsValid, Fill-Filled}

-- The length of the message and the end of the packet are not negative as C `int`s.
pub record Fits (m : MessageIn) (p : Packet) : Type 0 where
  pub length : m.length < 2 ^ 31
  pub end : p.offset + p.len < 2 ^ 31

fill_gaps-fill_plain :
    (memory : Bool) (now start end lo hi : ℕ) (gaps : List Gap)
    → Between lo gaps hi
    → hi < 2 ^ 31
    → start < 2 ^ 31
    → end < 2 ^ 31
    → fill_gaps memory now start end gaps ≡ fill_plain memory now start end gaps
unfolding fill_gaps fill_plain
fill_gaps-fill_plain memory now start end lo hi [] b h s e = refl
fill_gaps-fill_plain memory now start end lo hi (gap ∷ rest) b h s e =
    let below = Between-le gap.end hi rest b.2 in
    let lower : gap.start < 2 ^ 31 = omega arith in
    let upper : gap.end < 2 ^ 31 = omega arith in
    rw
      (
        le32_small start gap.start s lower,
        le32_small end gap.start e lower,
        lt32_small start gap.start s lower,
        lt32_small gap.end end upper e,
        le32_small gap.end end upper e,
        le32_small gap.end start upper s,
        fill_gaps-fill_plain memory now start end gap.end hi rest b.2 h s e,
      )
      refl

keep-keep_plain :
    (m : MessageIn) (p : Packet)
    → p.len ≤ m.bytes_remaining
    → m.bytes_remaining < 2 ^ 31
    → keep m p ≡ keep_plain m p
unfolding keep keep_plain
keep-keep_plain m p h k = rw (sub32_small m.bytes_remaining p.len h (omega arith)) refl

-- Where the packet does not pass the end of the message.
inside :
    (memory : Bool) (now : ℕ) (m : MessageIn) (p : Packet)
    → IsValid m
    → Fits m p
    → ltb m.length (p.offset + p.len) ≡ false
    → add_packet memory now m p ≡ add_plain memory now m p
unfolding add_packet add_plain homa_gap_new keep keep_plain
inside memory now m p v f h =
    let below = Between-le 0 m.recv_end m.gaps v.ordered in
    let received : m.recv_end < 2 ^ 31 = omega (arith, v.in_message, f.length) in
    let end = add32_small p.offset p.len (omega (arith, f.end)) in
    let start : p.offset < 2 ^ 31 = omega (arith, f.end) in
    let gaps =
      ap (λ e. fill_gaps memory now p.offset e m.gaps) end
      ∙ fill_gaps-fill_plain memory now p.offset (p.offset + p.len) 0 m.recv_end m.gaps v.ordered
          received start f.end in
    elim (Bool-cases (p.offset == m.recv_end)) [
      | inl next ↦
          let sum = add32_small m.recv_end p.len (ground (arith, f.end)) in
          let taken =
            sub32_small m.bytes_remaining p.len (ground (arith, h, v.counted))
              (omega (arith, v.counted, v.in_message, f.length)) in
          rw (end, lt32_small m.length (p.offset + p.len) f.length f.end, h, next, sum, taken) refl
      | inr other ↦ elim (Bool-cases (ltb m.recv_end p.offset)) [
        | inl beyond ↦ elim (Bool-cases memory) [
          | inr dry ↦
              rw
                (
                  end,
                  lt32_small m.length (p.offset + p.len) f.length f.end,
                  h,
                  other,
                  lt32_small m.recv_end p.offset received start,
                  beyond,
                  dry,
                )
                refl
          | inl fresh ↦
              let taken =
                sub32_small m.bytes_remaining p.len (ground (arith, h, v.counted, beyond))
                  (omega (arith, v.counted, v.in_message, f.length)) in
              rw
                (
                  end,
                  lt32_small m.length (p.offset + p.len) f.length f.end,
                  h,
                  other,
                  lt32_small m.recv_end p.offset received start,
                  beyond,
                  fresh,
                  end,
                  taken,
                )
                refl
        ]
        | inr old ↦ elim (Option-cases (fill_plain memory now p.offset (p.offset + p.len) m.gaps)) [
          | inl stop ↦
              rw
                (
                  end,
                  lt32_small m.length (p.offset + p.len) f.length f.end,
                  h,
                  other,
                  lt32_small m.recv_end p.offset received start,
                  old,
                  gaps,
                  stop,
                )
                refl
          | inr (gaps', more) ↦
              let filled =
                Fill-Filled 0 m.recv_end p.offset p.len refl v.ordered
                  (fill_plain-Fill memory now p.offset p.len m.gaps gaps' more) in
              let taken =
                sub32_small m.bytes_remaining p.len (omega (arith, filled.fewer, v.counted))
                  (omega (arith, v.counted, v.in_message, f.length)) in
              rw
                (
                  end,
                  lt32_small m.length (p.offset + p.len) f.length f.end,
                  h,
                  other,
                  lt32_small m.recv_end p.offset received start,
                  old,
                  gaps,
                  more,
                  taken,
                )
                refl
        ]
      ]
    ]

pub add_packet-add_plain :
    (memory : Bool) (now : ℕ) (m : MessageIn) (p : Packet)
    → IsValid m
    → Fits m p
    → add_packet memory now m p ≡ add_plain memory now m p
unfolding add_packet add_plain homa_gap_new
add_packet-add_plain memory now m p v f = elim (Bool-cases (ltb m.length (p.offset + p.len))) [
  | inr within ↦ inside memory now m p v f within
  | inl beyond ↦
      let end = add32_small p.offset p.len (omega (arith, f.end)) in
      rw (end, lt32_small m.length (p.offset + p.len) f.length f.end, beyond) refl
]
