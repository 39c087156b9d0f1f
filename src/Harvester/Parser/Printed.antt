-- ===== src/Harvester/Parser/Printed.antt =====
-- The trace lines of nft, as they are printed, with the event that each of them reports.
use network_sandbox_engine.Prelude.{
  ℕ, Text, codes, upper, strip, decimal, is_word, is_space, Bool, not, ◌&&◌, ◌==◌, Option, none,
  some, [], ◌∷◌, ◌++◌,
}
use network_sandbox_engine.Prelude.Spans.{Run}
use network_sandbox_engine.Models.{TraceEvent, EventType, blank}
use network_sandbox_engine.Harvester.Parser.{is_hex, is_lower_hex, is_bare, is_not_quote}

-- A name of a family, a table or a chain.
pub data Name : Type 0 where
  bare quoted : Text → Name

abbrev pub value : Name → Text
value (bare t) = t
value (quoted t) = t

abbrev pub shown : Name → Text
shown (bare t) = t
shown (quoted t) = 34 ∷ (t ++ 34 ∷ [])

pub data IsName : Name → Type 0 where
  bare_name : {t : Text} → Run is_bare t → IsName (bare t)
  quoted_name : {t : Text} → Run is_not_quote t → IsName (quoted t)

-- What each line starts with.
pub record Header : Type 0 where
  pub trace_id : Text
  pub family : Name
  pub table : Name
  pub chain : Name

pub record IsHeader (h : Header) : Type 0 where
  pub id : Run is_hex h.trace_id
  pub family : IsName h.family
  pub table : IsName h.table
  pub chain : IsName h.chain

-- The verdict of a rule, which is a word, or two where it names a chain.
pub data Verdict : Type 0 where
  -- `accept`
  plain : Text → Verdict
  -- `jump` with its chain
  targeted : Text → Text → Verdict

-- The rest of a line: a packet with its interface and what is said of it, a rule with its id, its
-- handle, its text and its verdict, or a verdict or a policy of a chain.
pub data Content : Type 0 where
  packet : Text → Text → Content
  rule : Text → ℕ → Text → Option Verdict → Content
  verdict policy : Text → Content

abbrev pub is_iface : ℕ → Bool
is_iface c = not (is_space c) && is_not_quote c

abbrev pub is_plain : ℕ → Bool
is_plain c = not (c == b'(')

pub data IsVerdict : Option Verdict → Type 0 where
  no_verdict : IsVerdict none
  one_verdict : {v : Text} → Run is_word v → IsVerdict (some (plain v))
  jump_verdict :
      {v name : Text} → Run is_word v → Run is_plain name → IsVerdict (some (targeted v name))

pub data IsContent : Content → Type 0 where
  a_packet : {name : Text} → Run is_iface name → (more : Text) → IsContent (packet name more)
  a_rule :
      {id text : Text} {v : Option Verdict}
      → Run is_lower_hex id
      → (handle : ℕ) → Run is_plain text
      → IsVerdict v
      → IsContent (rule id handle text v)
  a_verdict : {v : Text} → Run is_word v → IsContent (verdict v)
  a_policy : {v : Text} → Run is_word v → IsContent (policy v)

abbrev pub ending : Option Verdict → Text
ending none = []
ending (some (plain v)) = codes " (verdict " ++ (v ++ codes ")")
ending (some (targeted v name)) = codes " (verdict " ++ (v ++ 32 ∷ (name ++ codes ")"))

-- The text of a rule in its event: a verdict with a chain stays in it.
abbrev pub text_with : Text → Option Verdict → Text
text_with text none = text
text_with text (some (plain v)) = text
text_with text (some (targeted v name)) = text ++ ending (some (targeted v name))

abbrev pub word_of : Option Verdict → Option Text
word_of none = none
word_of (some (plain v)) = some v
word_of (some (targeted v name)) = none

abbrev pub show : Content → Text
show (packet name more) = codes "packet: iif \"" ++ (name ++ 34 ∷ more)
show (rule id handle text v) =
    codes "rule 0x"
    ++ (id ++ (codes " (handle " ++ (decimal handle ++ (codes ") " ++ (text ++ ending v)))))
show (verdict v) = codes "verdict " ++ v
show (policy v) = codes "policy " ++ v

abbrev pub line_of : Header → Text → Text
line_of h rest =
    codes "trace id "
    ++ (h.trace_id
        ++ 32 ∷ (shown h.family ++ 32 ∷ (shown h.table ++ 32 ∷ (shown h.chain ++ 32 ∷ rest))))

abbrev pub reported : EventType → Header → ℕ → TraceEvent
reported kind h now = record (blank kind) {
  trace_id = some h.trace_id;
  family = some (value h.family);
  table = some (value h.table);
  chain = some (value h.chain);
  timestamp = some now;
}

abbrev pub event_of : ℕ → Header → Content → TraceEvent
event_of now h (packet name more) = record (reported EventType.hook h now) { hook = some name }
event_of now h (rule id handle text v) = record (reported EventType.match h now) {
  rule_handle = some handle;
  rule_text = some (strip (text_with text v));
  verdict = elim (word_of v) [ none ↦ none | some v ↦ some (upper v) ];
}
event_of now h (verdict v) = record (reported EventType.verdict h now) { verdict = some (upper v) }
event_of now h (policy v) = record (reported EventType.verdict h now) { verdict = some (upper v) }
