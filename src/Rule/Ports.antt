-- ===== src/Rule/Ports.antt =====
-- The number that a port rule reads.
use clash_flt.Prelude.{ℕ, ◌+◌, ◌*◌, ◌-◌, ◌^◌, Bool, true, ◌&&◌, [], ◌∷◌, leb, length}
use clash_flt.Prelude.Text.{Text}

-- The number that decimal digits write, the first of most weight.
unfoldable pub decimal : Text → ℕ
decimal [] = 0
decimal (c ∷ s) = (c - b'0') * 10 ^ length s + decimal s

unfoldable pub all_digits : Text → Bool
all_digits [] = true
all_digits (c ∷ s) = (leb b'0' c && leb c b'9') && all_digits s
