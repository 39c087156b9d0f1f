-- ===== src/Prelude/Spans.antt =====
-- Runs of characters of a class, and the digits of a number, printed and read back.
use network_sandbox_engine.Prelude.{
  ℕ, zero, suc, ◌+◌, ◌*◌, ◌-◌, ◌/◌, ◌%◌, ◌<◌, Text, span, run_of, decimal, digits_from,
  digits_value, is_digit, leb, Bool, true, false, Option, Bool-cases, inl, inr, none, some, [], ◌∷◌,
  ◌++◌, ◌≡◌, refl, ap, arith, All,
}

-- Every character of a text meets a test.
abbrev pub Each : (ℕ → Bool) → Text → Type 0
Each p t = All (λ c. p c ≡ true) t

pub span-Each :
    (p : ℕ → Bool) (t : Text) (c : ℕ) (rest : Text)
    → Each p t
    → p c ≡ false
    → span p (t ++ c ∷ rest) ≡ (t, c ∷ rest)
unfolding span
span-Each p [] c rest a e = rw e refl
span-Each p (d ∷ t) c rest (q, a) e = rw (q, span-Each p t c rest a e) refl

pub run_of-Each :
    (p : ℕ → Bool) (d : ℕ) (t : Text) (c : ℕ) (rest : Text)
    → Each p (d ∷ t)
    → p c ≡ false
    → run_of p (d ∷ t ++ c ∷ rest) ≡ some (d ∷ t, c ∷ rest)
unfolding run_of
run_of-Each p d t c rest a e =
    ap (λ q. elim q.0 as (λ _. Option (Text × Text)) [ [] ↦ none | c ∷ cs ↦ some (c ∷ cs, q.1) ])
      (span-Each p (d ∷ t) c rest a e)

digits_value-append :
    (acc : ℕ) (t : Text) (c : ℕ)
    → digits_value acc (t ++ c ∷ []) ≡ digits_value acc t * 10 + (c - 48)
unfolding digits_value
digits_value-append acc [] c = refl
digits_value-append acc (d ∷ t) c = digits_value-append (acc * 10 + (d - 48)) t c

digits_value-digits_from : (fuel n : ℕ) → n < fuel → digits_value 0 (digits_from fuel n) ≡ n
unfolding digits_from digits_value
digits_value-digits_from zero n lt = omega arith
digits_value-digits_from (suc fuel) n lt = elim (Bool-cases (leb n 9)) [
  | inl e ↦ rw e (omega arith)
  | inr e ↦ rw e (
      omega (
        arith,
        digits_value-append 0 (digits_from fuel (n / 10)) (48 + n % 10),
        digits_value-digits_from fuel (n / 10) (ground arith),
      ))
]

pub Each-append : (p : ℕ → Bool) (t : Text) (c : ℕ) → Each p t → p c ≡ true → Each p (t ++ c ∷ [])
Each-append p [] c a e = (e, tt)
Each-append p (d ∷ t) c (q, a) e = (q, Each-append p t c a e)

Each-digits_from : (fuel n : ℕ) → Each is_digit (digits_from fuel n)
unfolding digits_from
Each-digits_from zero n = tt
Each-digits_from (suc fuel) n = elim (Bool-cases (leb n 9)) [
  | inl e ↦ rw e (ground arith, tt)
  | inr e ↦ rw e (
      Each-append is_digit (digits_from fuel (n / 10)) (48 + n % 10)
        (Each-digits_from fuel (n / 10)) (ground arith))
]

span-end : (p : ℕ → Bool) (t : Text) → Each p t → span p t ≡ (t, [])
unfolding span
span-end p [] a = refl
span-end p (d ∷ t) (q, a) = rw (q, span-end p t a) refl

-- A text that is not empty, each character of which meets a test.
pub data Run (p : ℕ → Bool) : Text → Type 0 where
  run : {d : ℕ} {t : Text} → Each p (d ∷ t) → Run p (d ∷ t)

pub run_of-Run :
    (p : ℕ → Bool) {t : Text}
    → Run p t
    → (c : ℕ) (rest : Text) → p c ≡ false
    → run_of p (t ++ c ∷ rest) ≡ some (t, c ∷ rest)
run_of-Run p (run {d} {t} a) c rest e = run_of-Each p d t c rest a e

pub Run-append : (p : ℕ → Bool) (t : Text) (c : ℕ) → Each p t → p c ≡ true → Run p (t ++ c ∷ [])
Run-append p [] c a e = run (e, tt)
Run-append p (d ∷ t) c (q, a) e = run (q, Each-append p t c a e)

pub Run-decimal : (n : ℕ) → Run is_digit (decimal n)
unfolding decimal digits_from
Run-decimal n = elim (Bool-cases (leb n 9)) [
  | inl e ↦ rw e (run (ground arith, tt))
  | inr e ↦ rw e (
      Run-append is_digit (digits_from n (n / 10)) (48 + n % 10) (Each-digits_from n (n / 10))
        (ground arith))
]

pub digits_value-decimal : (n : ℕ) → digits_value 0 (decimal n) ≡ n
unfolding decimal
digits_value-decimal n = digits_value-digits_from (suc n) n (omega arith)

pub run_of-end : (p : ℕ → Bool) {t : Text} → Run p t → run_of p t ≡ some (t, [])
unfolding run_of
run_of-end p (run {d} {t} a) =
    ap (λ q. elim q.0 as (λ _. Option (Text × Text)) [ [] ↦ none | c ∷ cs ↦ some (c ∷ cs, q.1) ])
      (span-end p (d ∷ t) a)
