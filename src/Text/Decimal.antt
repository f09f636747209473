-- ===== src/Text/Decimal.antt =====
-- `to_string` of a number: its decimal digits.
use dart_edge.Base.{ℕ, zero, suc, ◌+◌, ◌/◌, ◌%◌, [], ◌∷◌, ltb, if◌then◌else◌}
use dart_edge.Text.Bytes.{Str}

-- With as many rounds as the number has digits, or more.
unfoldable pub digits : ℕ → ℕ → Str → Str
digits zero n rest = rest
digits (suc rounds) n rest =
    let more = digits rounds (n / 10) ((n % 10 + b'0') ∷ rest) in
    if ltb n 10 then (n % 10 + b'0') ∷ rest else more

-- A number of 64 bits has at most twenty digits.
unfoldable pub decimal : ℕ → Str
unfolding digits
decimal n = digits 20 n []
