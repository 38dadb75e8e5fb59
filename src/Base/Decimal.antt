-- ===== src/Base/Decimal.antt =====
-- `strconv.Itoa`
use Prim.Native.Nat.{ℕ, zero, suc, ◌/◌, ◌%◌}
use Prim.Native.String.{String, ◌++◌}
use mathlib.Core.Path.{◌≡◌, refl}
use ccaa.Base.Tests.{ltb, if◌then◌else◌}
use ccaa.Base.Int.{ℤ, pos, negsuc}

-- The digit of a number below ten.
abbrev digit : ℕ → String
digit zero = "0"
digit (suc zero) = "1"
digit (suc (suc zero)) = "2"
digit (suc (suc (suc zero))) = "3"
digit (suc (suc (suc (suc zero)))) = "4"
digit (suc (suc (suc (suc (suc zero))))) = "5"
digit (suc (suc (suc (suc (suc (suc zero)))))) = "6"
digit (suc (suc (suc (suc (suc (suc (suc zero))))))) = "7"
digit (suc (suc (suc (suc (suc (suc (suc (suc zero)))))))) = "8"
digit (suc (suc (suc (suc (suc (suc (suc (suc (suc n))))))))) = "9"

-- The fuel is the number of digits at most; an int has at most 19.
decimal : ℕ → ℕ → String
decimal zero n = ""
decimal (suc f) n =
    let rest = decimal f (n / 10) in if ltb n 10 then digit n else rest ++ digit (n % 10)

unfoldable pub itoa : ℤ → String
unfolding decimal
itoa (pos n) = decimal 20 n
itoa (negsuc n) = "-" ++ decimal 20 (suc n)

itoa_example : itoa (negsuc 1049) ≡ "-1050"
unfolding itoa
itoa_example = refl
