-- ===== src/Prelude/Int.antt =====
-- Python's integers: `negsuc n` is -(n + 1).
use Prim.Native.Nat.{ℕ, zero, suc, ◌+◌, ◌-◌, ◌*◌}
use mathlib.Core.Bool.{Bool, true, false, ◌&&◌, ◌||◌}
use mathlib.Core.List.{[], ◌∷◌}
use mathlib.Core.Option.{Option, none, some}
use network_sandbox_engine.Prelude.Tests.{◌==◌, if◌then◌else◌}
use network_sandbox_engine.Prelude.Strings.{Text, is_digit, decimal}

pub data ℤ : Type 0 where
  pos : ℕ → ℤ
  negsuc : ℕ → ℤ

-- the truth test of an integer
unfoldable pub is_nonzero : ℤ → Bool
is_nonzero (pos zero) = false
is_nonzero (pos (suc n)) = true
is_nonzero (negsuc n) = true

digits_run : ℕ → Bool → Text → Option ℕ
digits_run acc after_digit [] = if after_digit then some acc else none
digits_run acc after_digit (c ∷ t) =
    let rest = digits_run (if is_digit c then acc * 10 + (c - 48) else acc) (is_digit c) t in
    if is_digit c || (after_digit && c == b'_') then rest else none

-- `int(t)`, of a text with no white space; `none` is a ValueError
unfoldable pub int_of : Text → Option ℤ
unfolding digits_run
int_of [] = none
int_of (c ∷ t) =
    if c == b'-'
    then (elim (digits_run 0 false t) [
      | none ↦ none
      | some n ↦ some (if n == 0 then pos 0 else negsuc (n - 1))
    ])
    else elim (digits_run 0 false (if c == b'+' then t else c ∷ t)) [
      | none ↦ none
      | some n ↦ some (pos n)
    ]

-- `str(n)`
unfoldable pub show_int : ℤ → Text
show_int (pos n) = decimal n
show_int (negsuc n) = b'-' ∷ decimal (n + 1)
