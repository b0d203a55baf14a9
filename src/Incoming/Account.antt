-- ===== src/Incoming/Account.antt =====
-- The invariant of a partly received message, and that every packet keeps it, in numbers without a bound.
use connected_homa.Prelude.{
  ℕ, ◌+◌, ◌-◌, ◌≤◌, ◌<◌, ◌≡◌, refl, inl, inr, Bool, Option, List, [], ◌∷◌, ◌++◌, arith,
  Option-cases,
}
use connected_homa.Rpc.{Gap, Packet, MessageIn}
use connected_homa.Incoming.Plain.{fill_plain, add_plain}
use connected_homa.Incoming.Fill.{Fill, skip, whole, lower, upper, middle, fill_plain-Fill}

-- The gaps are nonempty, in order and without overlap, between `lo` and `hi`.
abbrev pub Between : ℕ → List Gap → ℕ → Type 0
Between lo [] hi = lo ≤ hi
Between lo (gap ∷ rest) hi = (lo ≤ gap.start) × (gap.start < gap.end) × Between gap.end rest hi

-- The bytes that the gaps cover.
abbrev pub missing : List Gap → ℕ
missing [] = 0
missing (gap ∷ rest) = (gap.end - gap.start) + missing rest

pub record IsValid (m : MessageIn) : Type 0 where
  pub ordered : Between 0 m.gaps m.recv_end
  pub in_message : m.recv_end ≤ m.length
  pub counted : m.bytes_remaining ≡ (m.length - m.recv_end) + missing m.gaps

pub Between-le : (lo hi : ℕ) (gaps : List Gap) → Between lo gaps hi → lo + missing gaps ≤ hi
Between-le lo hi [] b = omega arith
Between-le lo hi (gap ∷ rest) b = omega (arith, Between-le gap.end hi rest b.2)

Between-weaken :
    (lo lo' hi : ℕ) (gaps : List Gap) → lo' ≤ lo → Between lo gaps hi → Between lo' gaps hi
Between-weaken lo lo' hi [] h b = omega arith
Between-weaken lo lo' hi (gap ∷ rest) h b = (omega arith, b.1, b.2)

-- What a successful pass over the gaps does to them: `len` bytes fewer are missing.
pub record Filled (lo hi len : ℕ) (gaps gaps' : List Gap) : Type 0 where
  pub ordered : Between lo gaps' hi
  pub fewer : missing gaps' + len ≡ missing gaps

pub Fill-Filled :
    (lo hi start len : ℕ) {end : ℕ} {gaps gaps' : List Gap}
    → end ≡ start + len
    → Between lo gaps hi
    → Fill start end gaps gaps'
    → Filled lo hi len gaps gaps'
Fill-Filled lo hi start len e b (skip _ end gap rest rest' gaps' f side g) =
    ground (arith, Fill-Filled gap.end hi start len e b.2 f)
Fill-Filled lo hi start len e b (whole _ end gap rest gaps' p q g) =
    ground (arith, Between-weaken gap.end lo hi rest)
Fill-Filled lo hi start len e b (lower _ end gap rest gaps' p q g) = ground arith
Fill-Filled lo hi start len e b (upper _ end gap rest gaps' p q r g) =
    ground (arith, Between-weaken gap.end start hi rest)
Fill-Filled lo hi start len e b (middle _ end gap rest gaps' p q g) = ground arith

append_gap :
    (lo hi start : ℕ) (gaps : List Gap) (gap : Gap) (end : ℕ)
    → Between lo gaps hi
    → gap.start ≡ hi
    → hi < gap.end
    → gap.end ≤ end
    → Between lo (gaps ++ gap ∷ []) end
      × (missing (gaps ++ gap ∷ []) ≡ missing gaps + (gap.end - gap.start))
append_gap lo hi start [] gap end b h k l = omega arith
append_gap lo hi start (g ∷ gaps) gap end b h k l =
    let ih = append_gap g.end hi start gaps gap end b.2 h k l in
    ((b.0, b.1, ih.0), omega (arith, ih.1))

extend_last :
    (lo hi hi' : ℕ) (gaps : List Gap) → hi ≤ hi' → Between lo gaps hi → Between lo gaps hi'
extend_last lo hi hi' [] h b = omega arith
extend_last lo hi hi' (gap ∷ rest) h b = (b.0, b.1, extend_last gap.end hi hi' rest h b.2)

pub add_plain-IsValid :
    (memory : Bool) (now : ℕ) (m : MessageIn) (p : Packet)
    → IsValid m
    → IsValid (add_plain memory now m p).0
unfolding add_plain
add_plain-IsValid memory now m p v = elim (Option-cases filled) [
  | inl none_left ↦ ground (
    arith,
    extend_last 0 m.recv_end (m.recv_end + p.len) m.gaps,
    append_gap 0 m.recv_end p.offset m.gaps
        (record { start = m.recv_end; end = p.offset; time = now }) (p.offset + p.len),
    Between-le 0 m.recv_end m.gaps v.ordered,
  )
  | inr (gaps', e) ↦ ground (
    arith,
    extend_last 0 m.recv_end (m.recv_end + p.len) m.gaps,
    append_gap 0 m.recv_end p.offset m.gaps
        (record { start = m.recv_end; end = p.offset; time = now }) (p.offset + p.len),
    Between-le 0 m.recv_end m.gaps v.ordered,
    Fill-Filled 0 m.recv_end p.offset p.len refl v.ordered
        (fill_plain-Fill memory now p.offset p.len m.gaps gaps' e),
  )
]
  where
    filled : Option (List Gap)
    filled = fill_plain memory now p.offset (p.offset + p.len) m.gaps
