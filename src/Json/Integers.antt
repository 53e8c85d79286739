-- ===== src/Json/Integers.antt =====
-- Integers of JSON: their sum and their order.
use llmcut.Prelude.{ℕ, ◌+◌, ◌-◌, Bool, true, false, leb, ltb, if◌then◌else◌}
use llmcut.Json.{ℤ, pos, negsuc}

abbrev difference : ℕ → ℕ → ℤ
difference m n = if leb n m then pos (m - n) else negsuc ((n - m) - 1)

infixl 60 ◌+ℤ◌
abbrev pub ◌+ℤ◌ : ℤ → ℤ → ℤ
pos m +ℤ pos n = pos (m + n)
pos m +ℤ negsuc n = difference m (n + 1)
negsuc m +ℤ pos n = difference n (m + 1)
negsuc m +ℤ negsuc n = negsuc ((m + n) + 1)

-- `a < b`
abbrev pub less : ℤ → ℤ → Bool
less (pos m) (pos n) = ltb m n
less (pos m) (negsuc n) = false
less (negsuc m) (pos n) = true
less (negsuc m) (negsuc n) = ltb n m
