-- ===== src/Runner/Verdicts.antt =====
-- `reduce_verdicts` and `collect_oracle_errors` of nse/cli/runner.py.
pub mod Reduced
mod Steps
pub mod Laws
pub mod Errors
use mathlib.Core.List.{foldl}
use network_sandbox_engine.Prelude.{
  Text, codes, text_eq, contains, add, given, upper, Bool, true, false, ◌||◌, Option, none, some,
  List, [], ◌∷◌, ◌++◌, any, collect, if◌then◌else◌,
}
use network_sandbox_engine.Prelude.Dict.{Dict, lookup, insert}
use network_sandbox_engine.Models.{TraceEvent, is_error}

abbrev pub scaffold_table : Text
scaffold_table = codes "nse_trace"

abbrev pub accept : Text
accept = codes "ACCEPT"

abbrev pub drop : Text
drop = codes "DROP"

abbrev pub reject : Text
reject = codes "REJECT"

-- `evt.raw_message or "unspecified pipeline error"`, of an error event
error_message : TraceEvent → Option Text
error_message evt =
    if is_error evt
    then some (elim (given evt.raw_message) [
      | none ↦ codes "unspecified pipeline error"
      | some message ↦ message
    ])
    else none

unfoldable pub collect_oracle_errors : List TraceEvent → List Text
unfolding error_message
collect_oracle_errors = collect error_message

-- The local variables of the loop; the set holds each id once.
pub record Reduction : Type 0 where
  pub order : List Text
  pub verdicts : Dict (List Text)
  pub reached_user_ruleset : List Text

-- `verdicts[trace_id].append(v)`; the key is there whenever the loop comes here
append_verdict : Text → Text → Dict (List Text) → Dict (List Text)
append_verdict t v d = elim (lookup t d) [ none ↦ d | some seen ↦ insert t (seen ++ v ∷ []) d ]

-- the first `if` of the loop
enter : Text → Reduction → Reduction
enter t s = elim (lookup t s.verdicts) [
  | none ↦ record s { verdicts = insert t [] s.verdicts; order = s.order ++ t ∷ [] }
  | some _ ↦ s
]

note_verdict : Text → Option Text → Reduction → Reduction
unfolding append_verdict
note_verdict t none s = s
note_verdict t (some v) s = record s { verdicts = append_verdict t (upper v) s.verdicts }

-- the second `if` of the loop
mark : Text → TraceEvent → Reduction → Reduction
unfolding note_verdict
mark t evt s = elim (given evt.table) [
  | none ↦ s
  | some table ↦
      if text_eq table scaffold_table
      then s
      else note_verdict t (given evt.verdict)
          (record s { reached_user_ruleset = add t s.reached_user_ruleset })
]

-- The id under which the loop files an event, unless it skips the event.
abbrev pub traced : TraceEvent → Option Text
traced evt = if is_error evt then none else given evt.trace_id

pub observe : Reduction → TraceEvent → Reduction
observe s evt = elim (traced evt) [ none ↦ s | some t ↦ mark t evt (enter t s) ]

abbrev pub is_blocked : Text → Bool
is_blocked v = text_eq v drop || text_eq v reject

abbrev pub is_accept : Text → Bool
is_accept v = text_eq v accept

-- the tests of the second loop, on the verdicts of one packet
judge : List Text → Option Text
judge seen =
    if any is_blocked seen then some drop else if any is_accept seen then some accept else none

-- the body of the second loop
pub conclude : Reduction → Text → Option Text
conclude s t =
    if contains t s.reached_user_ruleset
    then judge (elim (lookup t s.verdicts) [ none ↦ [] | some seen ↦ seen ])
    else none

abbrev pub start : Reduction
start = record { order = []; verdicts = []; reached_user_ruleset = [] }

unfoldable pub reduce_verdicts : List TraceEvent → List Text
unfolding observe conclude enter mark judge
reduce_verdicts events = let s = foldl observe start events in collect (conclude s) s.order
