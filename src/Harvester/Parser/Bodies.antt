-- ===== src/Harvester/Parser/Bodies.antt =====
-- The text and the verdict of a rule in its trace line, read by `rule_body`.
use network_sandbox_engine.Prelude.{
  ℕ, Text, codes, after, is_word, true, false, ◌==◌, Bool-cases, inl, inr, Option, none, some, [],
  ◌∷◌, ◌++◌, ◌≡◌, refl, sym, ap, ◌∙◌, append-nil, arith,
}
use network_sandbox_engine.Prelude.Spans.{Each, Run, run, run_of-Run}
use network_sandbox_engine.Harvester.Parser.{verdict_end, rule_body}
use network_sandbox_engine.Harvester.Parser.Printed.{
  IsVerdict, no_verdict, one_verdict, jump_verdict, Verdict, plain, targeted, text_with, word_of,
  is_plain, ending,
}

-- What does not start with a parenthesis.
abbrev Opens : Text → Type 0
Opens [] = Unit
Opens (c ∷ t) = is_plain c ≡ true

Opens-plain : (t : Text) (v : Option Verdict) → Each is_plain t → Opens (t ++ ending v)
Opens-plain [] none a = tt
Opens-plain [] (some (plain v)) a = refl
Opens-plain [] (some (targeted v name)) a = refl
Opens-plain (c ∷ t) v (q, a) = q

after-Opens : (d : ℕ) (t : Text) → Opens t → after (codes " (verdict ") (d ∷ t) ≡ none
unfolding after
after-Opens d [] o = elim (Bool-cases (32 == d)) [ inl e ↦ rw e refl | inr e ↦ rw e refl ]
after-Opens d (c ∷ t) o =
    let n : (b'(' == c) ≡ false = ground arith in
    elim (Bool-cases (32 == d)) [ inl e ↦ rw (e, n) refl | inr e ↦ rw e refl ]

-- A text without a parenthesis and what follows it are no verdict.
verdict_end-plain :
    (d : ℕ) (t : Text) (v : Option Verdict)
    → Each is_plain t
    → verdict_end (d ∷ t ++ ending v) ≡ none
unfolding verdict_end
verdict_end-plain d t v a = rw (after-Opens d (t ++ ending v) (Opens-plain t v a)) refl

verdict_end-ending : {v : Text} → Run is_word v → verdict_end (ending (some (plain v))) ≡ some v
unfolding verdict_end after
verdict_end-ending a = rw (run_of-Run is_word a b')' [] refl) refl

-- the verdict group has no room for the name of a chain
verdict_end-targeted :
    {v : Text}
    → Run is_word v
    → (name : Text) → verdict_end (ending (some (targeted v name))) ≡ none
unfolding verdict_end after
verdict_end-targeted a name = rw (run_of-Run is_word a 32 (name ++ codes ")") refl) refl

rule_body-unmarked : (c : ℕ) (t : Text) → Each is_plain t → rule_body c t ≡ (c ∷ t, none)
unfolding rule_body
rule_body-unmarked c [] a = refl
rule_body-unmarked c (d ∷ t) (q, a) =
    let e : verdict_end (d ∷ t) ≡ none =
      ap (λ u. verdict_end (d ∷ u)) (sym (append-nil t)) ∙ verdict_end-plain d t none a in
    rw (e, rule_body-unmarked d t a, rule_body) refl

Each-word : (v rest : Text) → Each is_word v → Each is_plain rest → Each is_plain (v ++ rest)
Each-word [] rest a b = b
Each-word (c ∷ v) rest (q, a) b = (ground arith, Each-word v rest a b)

Each-plain :
    (name rest : Text) → Each is_plain name → Each is_plain rest → Each is_plain (name ++ rest)
Each-plain [] rest a b = b
Each-plain (c ∷ name) rest (q, a) b = (q, Each-plain name rest a b)

shown_word : Each is_plain (codes "verdict ")
shown_word = (refl, (refl, (refl, (refl, (refl, (refl, (refl, (refl, tt))))))))

Each-target :
    {v name : Text}
    → Run is_word v
    → Run is_plain name
    → Each is_plain (codes "verdict " ++ (v ++ 32 ∷ (name ++ codes ")")))
Each-target (run {d} {t = v} a) (run {d = c} {t = name} b) =
    let rest : Each is_plain (32 ∷ (c ∷ name ++ codes ")")) =
      (refl, Each-plain (c ∷ name) (codes ")") b (refl, tt)) in
    Each-plain (codes "verdict ") (d ∷ v ++ 32 ∷ (c ∷ name ++ codes ")")) shown_word
      (Each-word (d ∷ v) (32 ∷ (c ∷ name ++ codes ")")) a rest)

verdict_end-parenthesis : (t : Text) → verdict_end (b'(' ∷ t) ≡ none
unfolding verdict_end after
verdict_end-parenthesis t = refl

rule_body-targeted :
    (c : ℕ) {v name : Text}
    → Run is_word v
    → Run is_plain name
    → let e = ending (some (targeted v name)) in rule_body c e ≡ (c ∷ e, none)
unfolding rule_body
rule_body-targeted c {v} {name} a b =
    let inside = codes "verdict " ++ (v ++ 32 ∷ (name ++ codes ")")) in
    rw
      (
        verdict_end-targeted a name,
        verdict_end-parenthesis inside,
        rule_body-unmarked b'(' inside (Each-target a b),
        rule_body,
      )
      refl

pub rule_body-plain :
    (c : ℕ) (t : Text) {v : Option Verdict}
    → Each is_plain t
    → IsVerdict v
    → rule_body c (t ++ ending v) ≡ (text_with (c ∷ t) v, word_of v)
unfolding rule_body
rule_body-plain c [] a no_verdict = refl
rule_body-plain c [] a (one_verdict r) = rw (verdict_end-ending r, rule_body) refl
rule_body-plain c [] a (jump_verdict r n) = rule_body-targeted c r n
rule_body-plain c (d ∷ t) (q, a) no_verdict =
    rw (verdict_end-plain d t none a, rule_body-plain d t a no_verdict, rule_body) refl
rule_body-plain c (d ∷ t) (q, a) (one_verdict {v} r) =
    rw (verdict_end-plain d t (some (plain v)) a, rule_body-plain d t a (one_verdict r), rule_body)
      refl
rule_body-plain c (d ∷ t) (q, a) (jump_verdict {v} {name} r n) =
    rw
      (
        verdict_end-plain d t (some (targeted v name)) a,
        rule_body-plain d t a (jump_verdict r n),
        rule_body,
      )
      refl
