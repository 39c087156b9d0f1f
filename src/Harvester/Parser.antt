-- ===== src/Harvester/Parser.antt =====
-- `_parse_line` of nse/core/trace_harvester.py. Each regular expression is a matcher that makes the
-- same choices; a line holds no line feed, and the classes are those of ASCII.
pub mod Printed
pub mod Names
pub mod Bodies
pub mod RoundTrip
mod Tests
use network_sandbox_engine.Prelude.{
  ℕ, Text, codes, upper, strip, run_of, after, is_digit, is_word, is_space, digits_value, Bool,
  true, false, not, ◌&&◌, ◌||◌, Option, none, some, [], ◌∷◌, ◌++◌, ◌==◌, leb, if◌then◌else◌, ◌>>=◌,
}
use network_sandbox_engine.Models.{TraceEvent, EventType, blank}

-- `[0-9a-fA-F]`
abbrev is_hex : ℕ → Bool
is_hex c = is_digit c || (leb 97 c && leb c 102) || (leb 65 c && leb c 70)

-- `[\da-f]`
abbrev is_lower_hex : ℕ → Bool
is_lower_hex c = is_digit c || (leb 97 c && leb c 102)

-- `[A-Za-z0-9_./-]`
abbrev is_bare : ℕ → Bool
is_bare c = is_word c || c == b'.' || c == b'/' || c == b'-'

abbrev is_not_quote : ℕ → Bool
is_not_quote c = not (c == 34)

-- `_IDENT`: a quoted name, or a bare one
unfoldable pub ident : Text → Option (Text × Text)
unfolding run_of
ident [] = none
ident (c ∷ t) =
    if c == 34
    then (do
      (body, rest) ← run_of is_not_quote t
      rest ← after (codes "\"") rest
      some (34 ∷ (body ++ 34 ∷ []), rest))
    else run_of is_bare (c ∷ t)

pub record Prefix : Type 0 where
  pub trace_id : Text
  pub family : Text
  pub table : Text
  pub chain : Text

-- `_PREFIX`
unfoldable pub prefix : Text → Option (Prefix × Text)
prefix t = do
  t ← after (codes "trace id ") t
  (trace_id, t) ← run_of is_hex t
  t ← after (codes " ") t
  (family, t) ← ident t
  t ← after (codes " ") t
  (table, t) ← ident t
  t ← after (codes " ") t
  (chain, t) ← ident t
  t ← after (codes " ") t
  some (record { trace_id = trace_id; family = family; table = table; chain = chain }, t)

-- all but the last character, if the last one is a quote
before_quote : Text → Option Text
before_quote [] = none
before_quote (c ∷ []) = if c == 34 then some [] else none
before_quote (c ∷ d ∷ t) = do t ← before_quote (d ∷ t); some (c ∷ t)

-- `_unquote`
unfoldable pub unquote : Text → Text
unfolding before_quote
unquote [] = []
unquote (c ∷ t) =
    if c == 34 then elim (before_quote t) [ none ↦ c ∷ t | some name ↦ name ] else c ∷ t

abbrev skip_quote : Text → Text
skip_quote [] = []
skip_quote (c ∷ t) = if c == 34 then t else c ∷ t

-- `iif \"?(?P<iif>[^\s\"]+)`
iif_here : Text → Option Text
iif_here t = do
  t ← after (codes "iif ") t
  (name, _) ← run_of (λ c. not (is_space c) && is_not_quote c) (skip_quote t)
  some name

-- `.*?\b` in front of it: the first place behind `last` where it matches, at the start of a word
find_iif : ℕ → Text → Option Text
find_iif last [] = none
find_iif last (c ∷ t) =
    let later = find_iif c t in
    if is_word last then later else elim (iif_here (c ∷ t)) [ none ↦ later | some name ↦ some name ]

-- `_PACKET_RE`: the prefix and the group `iif`
unfoldable pub packet_re : Text → Option (Prefix × Option Text)
unfolding find_iif iif_here
packet_re line = do (p, t) ← prefix line; t ← after (codes "packet:") t; some (p, find_iif b':' t)

-- `0x[\da-f]+ \(handle (?P<handle>\d+)\) `, and what follows it
rule_id : Text → Option (Text × Text)
rule_id t = do
  t ← after (codes "0x") t
  (_, t) ← run_of is_lower_hex t
  t ← after (codes " (handle ") t
  (handle, t) ← run_of is_digit t
  t ← after (codes ") ") t
  some (handle, t)

abbrev ends : Text → Option (Unit {0})
ends [] = some tt
ends (c ∷ t) = none

-- ` \(verdict (\w+)\)$`
verdict_end : Text → Option Text
verdict_end t = do
  t ← after (codes " (verdict ") t
  (verdict, t) ← run_of is_word t
  t ← after (codes ")") t
  _ ← ends t
  some verdict

-- `(.+?)(?: \(verdict (\w+)\))?$`, on a text with its first character:
-- the shortest rule text behind which the rest is a verdict or the end
pub rule_body : ℕ → Text → Text × Option Text
rule_body c [] = (c ∷ [], none)
rule_body c (d ∷ t) =
    let (longer, verdict) = rule_body d t in
    elim (verdict_end (d ∷ t)) [ none ↦ (c ∷ longer, verdict) | some v ↦ (c ∷ [], some v) ]

abbrev with_handle : Option Text → Text → Option (Option Text × Text × Option Text)
with_handle handle [] = none
with_handle handle (c ∷ t) = let (text, verdict) = rule_body c t in some (handle, text, verdict)

-- the optional group is tried first, and given up if it leaves no rule text
rule_groups : Text → Option (Option Text × Text × Option Text)
unfolding rule_id rule_body verdict_end
rule_groups t = elim (do (handle, rest) ← rule_id t; with_handle (some handle) rest) [
  | none ↦ with_handle none t
  | some groups ↦ some groups
]

-- `_RULE_RE`: the prefix and the groups `handle`, `rule_text` and `verdict`
unfoldable pub rule_re : Text → Option (Prefix × (Option Text × Text × Option Text))
unfolding rule_groups
rule_re line = do
  (p, t) ← prefix line
  t ← after (codes "rule ") t
  groups ← rule_groups t
  some (p, groups)

-- `(?:verdict|policy) (\w+)`
verdict_group : Text → Option Text
verdict_group t = do
  t ← elim (after (codes "verdict ") t) [ none ↦ after (codes "policy ") t | some rest ↦ some rest ]
  (verdict, _) ← run_of is_word t
  some verdict

-- `_VERDICT_RE`
unfoldable pub verdict_re : Text → Option (Prefix × Text)
unfolding verdict_group
verdict_re line = do (p, t) ← prefix line; verdict ← verdict_group t; some (p, verdict)

-- The fields that all three kinds of event take from the prefix.
abbrev pub filed : EventType → Prefix → ℕ → TraceEvent
filed kind p now = record (blank kind) {
  trace_id = some p.trace_id;
  family = some (unquote p.family);
  table = some (unquote p.table);
  chain = some (unquote p.chain);
  timestamp = some now;
}

abbrev hook_event : ℕ → Prefix × Option Text → TraceEvent
hook_event now (p, iif) = record (filed EventType.hook p now) {
  hook = some (elim iif [ none ↦ [] | some name ↦ name ]);
}

abbrev match_event : ℕ → Prefix × (Option Text × Text × Option Text) → TraceEvent
match_event now (p, (handle, text, verdict)) = record (filed EventType.match p now) {
  rule_handle = elim handle [ none ↦ none | some digits ↦ some (digits_value 0 digits) ];
  rule_text = some (strip text);
  verdict = elim verdict [ none ↦ none | some v ↦ some (upper v) ];
}

abbrev verdict_event : ℕ → Prefix × Text → TraceEvent
verdict_event now (p, verdict) = record (filed EventType.verdict p now) {
  verdict = some (upper verdict);
}

-- `_parse_line`; `blind` says that NSE_FORCE_BLIND is set
unfoldable pub parse_line : Bool → ℕ → Text → Option TraceEvent
parse_line true now line = none
parse_line false now line = elim (packet_re line) [
  | some groups ↦ some (hook_event now groups)
  | none ↦ elim (rule_re line) [
    | some groups ↦ some (match_event now groups)
    | none ↦ elim (verdict_re line) [ some groups ↦ some (verdict_event now groups) | none ↦ none ]
  ]
]

-- `_TRACE_LINE_RE`: `^trace id \S+ `
unfoldable pub is_trace_line : Text → Bool
is_trace_line line =
    elim (do
      t ← after (codes "trace id ") line
      (_, t) ← run_of (λ c. not (is_space c)) t
      after (codes " ") t) [ none ↦ false | some _ ↦ true ]
