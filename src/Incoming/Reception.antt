-- ===== src/Incoming/Reception.antt =====
-- Which bytes of the message `homa_add_packet` takes for received.
use connected_homa.Prelude.{
  sym, ◌∙◌, ℕ, zero, suc, ◌≢◌, ◌+◌, ◌≤◌, ◌<◌, ◌≡◌, refl, inl, inr, Bool, true, false, not, ◌&&◌,
  ◌||◌, Option, List, [], ◌∷◌, ◌++◌, arith, Option-cases, Bool-cases, leb, ltb, ◌==◌,
}
use connected_homa.Rpc.{Gap, Packet, MessageIn}
use connected_homa.Incoming.{kept, add_packet}
use connected_homa.Incoming.Plain.{fill_plain, add_plain}
use connected_homa.Incoming.Fill.{Fill, skip, whole, lower, upper, middle, fill_plain-Fill}
use connected_homa.Incoming.Agree.{Fits, add_packet-add_plain}
use connected_homa.Incoming.Account.{Between, Between-le, IsValid, missing}

abbrev pub in_range : ℕ → ℕ → ℕ → Bool
in_range start end b = leb start b && ltb b end

abbrev pub in_gap : List Gap → ℕ → Bool
in_gap [] b = false
in_gap (gap ∷ rest) b = in_range gap.start gap.end b || in_gap rest b

-- Byte `b` of the message has arrived.
abbrev pub received : MessageIn → ℕ → Bool
received m b = ltb b m.recv_end && not (in_gap m.gaps b)

abbrev pub in_packet : Packet → ℕ → Bool
in_packet p b = in_range p.offset (p.offset + p.len) b

pub in_gap-below :
    (lo hi b : ℕ) (gaps : List Gap) → Between lo gaps hi → b < lo → in_gap gaps b ≡ false
in_gap-below lo hi b [] w h = refl
in_gap-below lo hi b (gap ∷ rest) w h = ground (arith, in_gap-below gap.end hi b rest w.2)

pub in_gap-above :
    (lo hi b : ℕ) (gaps : List Gap) → Between lo gaps hi → hi ≤ b → in_gap gaps b ≡ false
in_gap-above lo hi b [] w h = refl
in_gap-above lo hi b (gap ∷ rest) w h =
    ground (arith, in_gap-above gap.end hi b rest w.2, Between-le gap.end hi rest w.2)

-- A packet that is kept takes exactly its bytes out of the gaps.
Fill-in_gap :
    (lo hi b : ℕ) {start end : ℕ} {gaps gaps' : List Gap}
    → start ≤ end
    → Between lo gaps hi
    → Fill start end gaps gaps'
    → in_gap gaps' b ≡ (in_gap gaps b && not (in_range start end b))
Fill-in_gap lo hi b h w (skip start end gap rest rest' gaps' f side g) =
    ground (arith, Fill-in_gap gap.end hi b h w.2 f)
Fill-in_gap lo hi b h w (whole start end gap rest gaps' p q g) =
    ground (arith, in_gap-below gap.end hi b rest w.2)
Fill-in_gap lo hi b h w (lower start end gap rest gaps' p q g) =
    ground (arith, in_gap-below gap.end hi b rest w.2)
Fill-in_gap lo hi b h w (upper start end gap rest gaps' p q r g) =
    ground (arith, in_gap-below gap.end hi b rest w.2)
Fill-in_gap lo hi b h w (middle start end gap rest gaps' p q g) =
    ground (arith, in_gap-below gap.end hi b rest w.2)

-- All of them lay in the gaps.
Fill-missing :
    (b : ℕ) {start end : ℕ} {gaps gaps' : List Gap}
    → Fill start end gaps gaps'
    → (not (in_gap gaps b) && in_range start end b) ≡ false
Fill-missing b (skip start end gap rest rest' gaps' f side g) = ground (arith, Fill-missing b f)
Fill-missing b (whole start end gap rest gaps' p q g) = ground arith
Fill-missing b (lower start end gap rest gaps' p q g) = ground arith
Fill-missing b (upper start end gap rest gaps' p q r g) = ground arith
Fill-missing b (middle start end gap rest gaps' p q g) = ground arith

in_gap-append :
    (gaps : List Gap) (gap : Gap) (b : ℕ)
    → in_gap (gaps ++ gap ∷ []) b ≡ (in_gap gaps b || in_range gap.start gap.end b)
in_gap-append [] gap b = ground arith
in_gap-append (g ∷ gaps) gap b = ground (arith, in_gap-append gaps gap b)

add_plain-kept :
    (memory : Bool) (now : ℕ) (m : MessageIn) (p : Packet) (m' : MessageIn) (b : ℕ)
    → IsValid m
    → add_plain memory now m p ≡ (m', kept)
    → (received m' b ≡ (received m b || in_packet p b)) × ((received m b && in_packet p b) ≡ false)
unfolding add_plain
add_plain-kept memory now m p m' b v e = elim (Option-cases filled) [
  | inl stop ↦ ground (
    arith,
    in_gap-above 0 m.recv_end b m.gaps v.ordered,
    in_gap-append m.gaps (record { start = m.recv_end; end = p.offset; time = now }) b,
  )
  | inr (gaps', more) ↦ ground (
    arith,
    in_gap-above 0 m.recv_end b m.gaps v.ordered,
    in_gap-append m.gaps (record { start = m.recv_end; end = p.offset; time = now }) b,
    Fill-in_gap 0 m.recv_end b (omega arith) v.ordered
        (fill_plain-Fill memory now p.offset p.len m.gaps gaps' more),
    Fill-missing b (fill_plain-Fill memory now p.offset p.len m.gaps gaps' more),
  )
]
  where
    filled : Option (List Gap)
    filled = fill_plain memory now p.offset (p.offset + p.len) m.gaps

-- In a well-formed message, a kept packet adds its own bytes to those received, and no other; none of
-- them had been received before. The length of the message and the end of the packet are below 2^31.
pub add_packet-kept :
    (memory : Bool) (now : ℕ) (m : MessageIn) (p : Packet) (m' : MessageIn) (b : ℕ)
    → IsValid m
    → Fits m p
    → add_packet memory now m p ≡ (m', kept)
    → (received m' b ≡ (received m b || in_packet p b)) × ((received m b && in_packet p b) ≡ false)
add_packet-kept memory now m p m' b v f e =
    add_plain-kept memory now m p m' b v (sym (add_packet-add_plain memory now m p v f) ∙ e)

abbrev pub all_below : ℕ → (ℕ → Bool) → Bool
all_below zero f = true
all_below (suc n) f = f n && all_below n f

all_below_intro : (n : ℕ) (f : ℕ → Bool) → ((b : ℕ) → b < n → f b ≡ true) → all_below n f ≡ true
all_below_intro zero f h = refl
all_below_intro (suc n) f h =
    ground (arith, h n (omega arith), all_below_intro n f (λ b k. h b (omega arith)))

all_below_elim : (n b : ℕ) (f : ℕ → Bool) → b < n → all_below n f ≡ true → f b ≡ true
all_below_elim zero b f h e = absurd (omega arith)
all_below_elim (suc n) b f h e = ground (arith, all_below_elim n b f)

in_gap-none :
    (lo hi b : ℕ) (gaps : List Gap) → Between lo gaps hi → missing gaps ≡ 0 → in_gap gaps b ≡ false
in_gap-none lo hi b [] w e = refl
in_gap-none lo hi b (gap ∷ rest) w e = absurd (omega arith)

in_gap-some :
    (lo hi : ℕ) (gaps : List Gap)
    → Between lo gaps hi
    → missing gaps ≢ 0
    → (b : ℕ) × (b < hi) × (in_gap gaps b ≡ true)
in_gap-some lo hi [] w n = absurd (n refl)
in_gap-some lo hi (gap ∷ rest) w n =
    (gap.start, omega (arith, Between-le gap.end hi rest w.2), ground arith)

-- In a well-formed message, `bytes_remaining` is zero exactly when every byte of the message has been
-- received.
pub bytes_remaining-zero :
    (m : MessageIn) → IsValid m → (m.bytes_remaining == 0) ≡ all_below m.length (received m)
bytes_remaining-zero m v = elim (Bool-cases (m.bytes_remaining == 0)) [
  | inl done ↦ ground (
    arith,
    all_below_intro m.length (received m) (λ b h.
        ground (arith, in_gap-none 0 m.recv_end b m.gaps v.ordered, v.counted, v.in_message)),
  )
  | inr more ↦ elim (Bool-cases (ltb m.recv_end m.length)) [
    | inl short ↦ ground (arith, all_below_elim m.length m.recv_end (received m))
    | inr long ↦
        let (b, h, g) =
          in_gap-some 0 m.recv_end m.gaps v.ordered (λ z. ground (arith, v.counted)) in
        ground (arith, all_below_elim m.length b (received m), v.in_message)
  ]
]
