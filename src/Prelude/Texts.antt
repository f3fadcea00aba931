-- ===== src/Prelude/Texts.antt =====
-- Python's slices of texts from the front, and `f"{n}"`.
use Prim.Native.Nat.{ℕ, zero, suc, ◌+◌, ◌/◌, ◌%◌}
use Prim.Native.String
use Prim.Native.String.{String, ◌++◌}
use open_format_3d_viewer.Prelude.Tests.{ltb, if◌then◌else◌}

-- `s[:n]`
unfoldable pub clip : ℕ → String → String
clip zero s = String.[]
clip (suc n) String.[] = String.[]
clip (suc n) (String.◌∷◌ c s) = String.◌∷◌ c (clip n s)

-- A number has no more digits than its value plus one.
unfoldable pub decimal_loop : (fuel n : ℕ) → String
decimal_loop zero n = ""
decimal_loop (suc fuel) n =
    let digit = String.slice "0123456789" (n % 10) (n % 10 + 1) in
    let rest = decimal_loop fuel (n / 10) ++ digit in if ltb n 10 then digit else rest

unfoldable pub decimal : ℕ → String
unfolding decimal_loop
decimal n = decimal_loop (suc n) n
