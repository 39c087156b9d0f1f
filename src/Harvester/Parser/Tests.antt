-- ===== src/Harvester/Parser/Tests.antt =====
-- A rule's line of `nft monitor trace`.
use network_sandbox_engine.Prelude.{
  ℕ, Text, codes, Bool, false, not, any, Bool-cases, inl, inr, is_word, [], ◌∷◌, some, ◌≡◌, refl,
}
use network_sandbox_engine.Prelude.Spans.{Run, run, Each}
use network_sandbox_engine.Harvester.Parser.{
  parse_line, is_hex, is_lower_hex, is_bare, is_not_quote,
}
use network_sandbox_engine.Harvester.Parser.Printed.{
  Header, IsHeader, bare, quoted, bare_name, quoted_name, Content, IsContent, rule, a_rule,
  one_verdict, plain, is_plain, line_of, show, event_of,
}
use network_sandbox_engine.Harvester.Parser.RoundTrip.{parse_line-show}

abbrev header : Header
header = record {
  trace_id = codes "1be8aad4";
  family = bare (codes "ip");
  table = quoted (codes "my filter");
  chain = bare (codes "input");
}

abbrev content : Content
content = rule (codes "3") 5 (codes "tcp dport 80 accept") (some (plain (codes "accept")))

Each-any : (p : ℕ → Bool) (t : Text) → any (λ c. not (p c)) t ≡ false → Each p t
Each-any p [] h = tt
Each-any p (c ∷ t) h = elim (Bool-cases (p c)) [
  | inl e ↦ (e, Each-any p t (rw e at h))
  | inr e ↦ absurd (cc (rw e at h))
]

-- a text whose characters are all of the class
Run-any : (p : ℕ → Bool) {c : ℕ} {t : Text} → any (λ c. not (p c)) (c ∷ t) ≡ false → Run p (c ∷ t)
Run-any p {c} {t} h = run (Each-any p (c ∷ t) h)

header-IsHeader : IsHeader header
header-IsHeader = record {
  id = Run-any is_hex refl;
  family = bare_name (Run-any is_bare refl);
  table = quoted_name (Run-any is_not_quote refl);
  chain = bare_name (Run-any is_bare refl);
}

content-IsContent : IsContent content
content-IsContent =
    a_rule (Run-any is_lower_hex {t = []} refl) 5 (Run-any is_plain refl)
      (one_verdict (Run-any is_word refl))

parse_line-show_example :
    parse_line false 7 (line_of header (show content)) ≡ some (event_of 7 header content)
parse_line-show_example = parse_line-show header-IsHeader content-IsContent 7
