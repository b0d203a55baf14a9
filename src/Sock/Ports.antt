-- ===== src/Sock/Ports.antt =====
-- The client port that a new socket gets.
use connected_homa.Prelude.{
  ℕ, zero, suc, ◌+◌, ◌-◌, ◌%◌, ◌^◌, ◌≤◌, ◌<◌, ◌≡◌, refl, Bool, true, false, some, ltb, leb,
  if◌then◌else◌, arith, Bool-cases, inl, inr, is_some,
}
use connected_homa.Sock.{min_default_port, choose_port}

-- From a 16-bit port, the port that the loop settles on is a 16-bit client port that no socket has.
choose_port-free :
    (fuel : ℕ) (used : ℕ → Bool) (port q : ℕ)
    → port < 2 ^ 16
    → choose_port fuel used port ≡ some q
    → (min_default_port ≤ q) × (q < 2 ^ 16) × (used q ≡ false)
unfolding choose_port
choose_port-free zero used port q h e = absurd (cc)
choose_port-free (suc fuel) used port q h e =
    let p : ℕ = if ltb port min_default_port then min_default_port else port in
    ground (arith, choose_port-free fuel used ((p + 1) % 2 ^ 16) q)

abbrev start : ℕ → ℕ
start port = if ltb port min_default_port then min_default_port else port

-- The rounds from `port` to the port `q`.
abbrev rounds : ℕ → ℕ → ℕ
rounds port q =
    if leb (start port) q then q - start port else 2 ^ 16 - start port + (q - min_default_port)

choose_port-ends_within :
    (fuel : ℕ) (used : ℕ → Bool) (port q : ℕ)
    → port < 2 ^ 16
    → min_default_port ≤ q
    → q < 2 ^ 16
    → used q ≡ false
    → rounds port q < fuel
    → is_some (choose_port fuel used port) ≡ true
unfolding choose_port
choose_port-ends_within zero used port q h k l f r = absurd (omega arith)
choose_port-ends_within (suc fuel) used port q h k l f r = elim (Bool-cases (used (start port))) [
  | inl taken ↦
      rw (taken, choose_port)
        (choose_port-ends_within fuel used ((start port + 1) % 2 ^ 16) q (omega arith) k l f
          (nearer port q h k l (λ e. ground arith) r))
  | inr free ↦ rw (free, choose_port) refl
]
  where
    nearer :
        (port q : ℕ)
        → port < 2 ^ 16
        → min_default_port ≤ q
        → q < 2 ^ 16
        → (start port ≡ q → ⊥)
        → rounds port q < suc fuel
        → rounds ((start port + 1) % 2 ^ 16) q < fuel
    nearer port q h k l n r = ground arith

-- From any 16-bit port, the loop ends within 2^16 rounds if any client port is free.
choose_port-ends :
    (used : ℕ → Bool) (port q : ℕ)
    → port < 2 ^ 16
    → min_default_port ≤ q
    → q < 2 ^ 16
    → used q ≡ false
    → is_some (choose_port (2 ^ 16) used port) ≡ true
choose_port-ends used port q h k l f =
    choose_port-ends_within (2 ^ 16) used port q h k l f (ground arith)
