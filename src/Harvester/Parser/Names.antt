-- ===== src/Harvester/Parser/Names.antt =====
-- The prefix of a trace line, printed and parsed.
use network_sandbox_engine.Prelude.{
  Text, after, false, ◌==◌, some, [], ◌∷◌, ◌++◌, ◌≡◌, refl, arith, append_assoc,
}
use network_sandbox_engine.Prelude.Spans.{run, run_of-Run}
use network_sandbox_engine.Harvester.Parser.{
  Prefix, ident, prefix, before_quote, unquote, is_hex, is_bare, is_not_quote,
}
use network_sandbox_engine.Harvester.Parser.Printed.{
  Name, value, shown, IsName, bare_name, quoted_name, Header, IsHeader, line_of,
}

ident-shown :
    {n : Name} → IsName n → (rest : Text) → ident (shown n ++ 32 ∷ rest) ≡ some (shown n, 32 ∷ rest)
unfolding ident after
ident-shown (bare_name (run {d} {t} (q, a))) rest =
    let e : (d == 34) ≡ false = ground arith in rw e (run_of-Run is_bare (run (q, a)) 32 rest refl)
ident-shown (quoted_name {t} a) rest =
    rw (append_assoc t (34 ∷ []) (32 ∷ rest), run_of-Run is_not_quote a 34 (32 ∷ rest) refl) refl

before_quote-append : (t : Text) → before_quote (t ++ 34 ∷ []) ≡ some t
unfolding before_quote
before_quote-append [] = refl
before_quote-append (c ∷ []) = refl
before_quote-append (c ∷ d ∷ t) = rw (before_quote-append (d ∷ t)) refl

pub unquote-shown : {n : Name} → IsName n → unquote (shown n) ≡ value n
unfolding unquote
unquote-shown (bare_name (run {d} {t} (q, a))) =
    let e : (d == 34) ≡ false = ground arith in rw e refl
unquote-shown (quoted_name {t} a) = rw (before_quote-append t) refl

abbrev pub prefix_of : Header → Prefix
prefix_of h = record {
  trace_id = h.trace_id;
  family = shown h.family;
  table = shown h.table;
  chain = shown h.chain;
}

pub prefix-line :
    {h : Header} → IsHeader h → (rest : Text) → prefix (line_of h rest) ≡ some (prefix_of h, rest)
unfolding prefix after
prefix-line {h} i rest =
    rw
      (
        run_of-Run is_hex i.id 32 _ refl,
        ident-shown i.family _,
        ident-shown i.table _,
        ident-shown i.chain rest,
      )
      refl
