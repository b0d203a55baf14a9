-- ===== src/Prelude/Maps.antt =====
-- Arrays and pointers as functions of an index.
use Prim.Native.Nat.{ℕ, zero, suc, ◌+◌}
use mathlib.Core.Bool.{Bool}
use connected_homa.Prelude.Tests.{◌==◌, if◌then◌else◌}

abbrev pub update {ℓ} : {A : Type ℓ} → (ℕ → A) → ℕ → A → ℕ → A
update f k v j = if j == k then v else f j

-- How many indexes below `n` pass the test.
abbrev pub count_below : (ℕ → Bool) → ℕ → ℕ
count_below test zero = 0
count_below test (suc n) = (if test n then 1 else 0) + count_below test n
