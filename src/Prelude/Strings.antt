-- ===== src/Prelude/Strings.antt =====
-- Python strings as lists of code points, and the string methods that the engine calls. Case
-- and white space are those of ASCII.
use Prim.Native.Nat.{ℕ, ◌*◌, zero, suc, ◌/◌, ◌%◌, ◌+◌, ◌-◌}
use Prim.Native.Char.{code}
use Prim.Native.String.{String}
use mathlib.Core.Path.{refl, ◌≡◌}
use mathlib.Core.Logic.{◌↔◌}
use mathlib.Core.Bool.{Bool, true, false, not, ◌&&◌, ◌||◌}
use mathlib.Core.List.{List, [], ◌∷◌, ◌++◌, map, reverse}
use mathlib.Core.Option.{Option, none, some}
use native.Mathlib.Omega.{arith}
use network_sandbox_engine.Prelude.Tests.{leb, ◌==◌, if◌then◌else◌}

abbrev pub Text : Type 0
Text = List ℕ

-- A literal of the source.
abbrev pub codes : String → Text
codes String.[] = []
codes (String.◌∷◌ c s) = code c ∷ codes s

-- `==` on strings
unfoldable pub text_eq : Text → Text → Bool
text_eq [] [] = true
text_eq (a ∷ x) (b ∷ y) = a == b && text_eq x y
text_eq _ _ = false

pub text_eq_iff : (x y : Text) → (text_eq x y ≡ true) ↔ (x ≡ y)
unfolding text_eq
text_eq_iff [] [] = (λ _. refl, λ _. refl)
text_eq_iff [] (b ∷ y) = ground arith
text_eq_iff (a ∷ x) [] = ground arith
text_eq_iff (a ∷ x) (b ∷ y) = ground (arith, text_eq_iff x y)

pub text_eq_refl : (x : Text) → text_eq x x ≡ true
text_eq_refl x = (text_eq_iff x x).1 refl

-- `x in xs`, for a list, a set or a tuple of strings
unfoldable pub contains : Text → List Text → Bool
contains t [] = false
contains t (x ∷ xs) = text_eq t x || contains t xs

pub contains-append :
    (t : Text) (xs ys : List Text) → contains t (xs ++ ys) ≡ (contains t xs || contains t ys)
unfolding contains
contains-append t [] ys = refl
contains-append t (x ∷ xs) ys = ground (arith, contains-append t xs ys)

-- `set.add`
unfoldable pub add : Text → List Text → List Text
add t xs = if contains t xs then xs else xs ++ t ∷ []

pub contains-add :
    (t u : Text) (xs : List Text) → contains t (add u xs) ≡ (text_eq t u || contains t xs)
unfolding add contains
contains-add t u xs = ground (arith, contains-append t xs (u ∷ []), text_eq_iff t u)

-- The value of an optional string where Python's truth test passes: neither `None` nor "".
unfoldable pub given : Option Text → Option Text
given none = none
given (some []) = none
given (some (c ∷ t)) = some (c ∷ t)

upper_code : ℕ → ℕ
upper_code c = if leb 97 c && leb c 122 then c - 32 else c

lower_code : ℕ → ℕ
lower_code c = if leb 65 c && leb c 90 then c + 32 else c

unfoldable pub upper : Text → Text
unfolding upper_code
upper = map upper_code

unfoldable pub lower : Text → Text
unfolding lower_code
lower = map lower_code

unfoldable pub starts_with : Text → Text → Bool
starts_with t [] = true
starts_with [] (p ∷ ps) = false
starts_with (c ∷ t) (p ∷ ps) = c == p && starts_with t ps

abbrev pub is_space : ℕ → Bool
is_space c = c == 32 || (leb 9 c && leb c 13) || (leb 28 c && leb c 31)

unfoldable pub digits_from : ℕ → ℕ → Text
digits_from zero n = []
digits_from (suc fuel) n =
    let rest = digits_from fuel (n / 10) in
    if leb n 9 then (48 + n) ∷ [] else rest ++ (48 + n % 10) ∷ []

-- `str(n)`; a number has at most as many digits as its value and one
unfoldable pub decimal : ℕ → Text
unfolding digits_from
decimal n = digits_from (suc n) n

-- The longest prefix of characters that pass the test, and what follows it.
unfoldable pub span : (ℕ → Bool) → Text → Text × Text
span p [] = ([], [])
span p (c ∷ t) = let (taken, rest) = span p t in if p c then (c ∷ taken, rest) else ([], c ∷ t)

-- `str.lstrip`
unfoldable pub drop_space : Text → Text
drop_space [] = []
drop_space (c ∷ t) = let rest = drop_space t in if is_space c then rest else c ∷ t

-- `str.strip`
unfoldable pub strip : Text → Text
unfolding drop_space
strip t = reverse (drop_space (reverse (drop_space t)))

-- `p+`, where what follows in the pattern is outside the class
unfoldable pub run_of : (ℕ → Bool) → Text → Option (Text × Text)
run_of p t = let (taken, rest) = span p t in elim taken [ [] ↦ none | c ∷ cs ↦ some (c ∷ cs, rest) ]

-- The bind of `Option`: the rest of a pattern, where the part before it matched.
infixl 5 ◌>>=◌
abbrev pub ◌>>=◌ : {X Y : Type 0} → Option X → (X → Option Y) → Option Y
some matched >>= rest = rest matched
none >>= rest = none

-- What follows a literal at the start of a text.
unfoldable pub after : Text → Text → Option Text
after [] t = some t
after (p ∷ ps) [] = none
after (p ∷ ps) (c ∷ t) = if p == c then after ps t else none

abbrev pub is_digit : ℕ → Bool
is_digit c = leb 48 c && leb c 57

abbrev is_letter : ℕ → Bool
is_letter c = (leb 65 c && leb c 90) || (leb 97 c && leb c 122)

-- the class `\w`
abbrev pub is_word : ℕ → Bool
is_word c = is_digit c || is_letter c || c == 95

-- The value of a run of digits.
unfoldable pub digits_value : ℕ → Text → ℕ
digits_value acc [] = acc
digits_value acc (c ∷ t) = digits_value (acc * 10 + (c - 48)) t

-- `str.split()`: the words between runs of white space. `word` is the one that is being read.
split_from : Text → Text → List Text
split_from word [] = elim word [ [] ↦ [] | c ∷ t ↦ (c ∷ t) ∷ [] ]
split_from word (c ∷ t) =
    let rest = split_from (if is_space c then [] else word ++ c ∷ []) t in
    if is_space c then elim word [ [] ↦ rest | d ∷ w ↦ (d ∷ w) ∷ rest ] else rest

unfoldable pub split_words : Text → List Text
unfolding split_from
split_words = split_from []

-- What follows the first separator of a text, up to the next one: `t.split(sep)[1]`.
unfoldable pub second_part : ℕ → Text → Text
unfolding span
second_part sep t = elim (span (λ c. not (c == sep)) t).1 [
  | [] ↦ []
  | _ ∷ rest ↦ (span (λ c. not (c == sep)) rest).0
]

-- The characters at which `str.splitlines` ends a line.
abbrev is_line_break : ℕ → Bool
is_line_break c =
    (leb 10 c && leb c 13) || (leb 28 c && leb c 30) || c == 133 || c == 8232 || c == 8233

-- `word` is the line that is being read; a line feed behind a carriage return ends no line of its own.
lines_from : Bool → Text → Text → List Text
lines_from returned word [] = elim word [ [] ↦ [] | c ∷ t ↦ (c ∷ t) ∷ [] ]
lines_from returned word (c ∷ t) =
    let same = lines_from false (word ++ c ∷ []) t in
    let next = lines_from (c == 13) [] t in
    let skip = lines_from false word t in
    if returned && c == 10 then skip else if is_line_break c then word ∷ next else same

unfoldable pub split_lines : Text → List Text
unfolding lines_from
split_lines = lines_from false []

-- Whether a text holds another one: the `in` of Python.
unfoldable pub has_substring : Text → Text → Bool
has_substring [] p = starts_with [] p
has_substring (c ∷ t) p = starts_with (c ∷ t) p || has_substring t p

-- `t.split(sep)[0]`
unfoldable pub first_part : ℕ → Text → Text
unfolding span
first_part sep t = (span (λ c. not (c == sep)) t).0
