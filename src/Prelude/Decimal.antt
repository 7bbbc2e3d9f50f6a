-- ===== src/Prelude/Decimal.antt =====
-- `str(n)` of a natural number.
use Prim.Native.Nat.{ℕ, zero, suc, ◌/◌, ◌%◌, compare, Ordering}
use Prim.Native.String.{String, ◌++◌}

abbrev digit : ℕ → String
digit zero = "0"
digit (suc zero) = "1"
digit (suc (suc zero)) = "2"
digit (suc (suc (suc zero))) = "3"
digit (suc (suc (suc (suc zero)))) = "4"
digit (suc (suc (suc (suc (suc zero))))) = "5"
digit (suc (suc (suc (suc (suc (suc zero)))))) = "6"
digit (suc (suc (suc (suc (suc (suc (suc zero))))))) = "7"
digit (suc (suc (suc (suc (suc (suc (suc (suc zero)))))))) = "8"
digit n = "9"

-- The digits of `n`, with more rounds than it has.
unfoldable pub show_from : ℕ → ℕ → String
show_from zero n = digit (n % 10)
show_from (suc fuel) n =
    let rest = show_from fuel (n / 10) in
    elim (compare n 10) [ Ordering.lt ↦ digit n | _ ↦ rest ++ digit (n % 10) ]

unfoldable pub show : ℕ → String
unfolding show_from
show n = show_from n n
