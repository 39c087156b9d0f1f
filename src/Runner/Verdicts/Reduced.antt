-- ===== src/Runner/Verdicts/Reduced.antt =====
-- What the reduction computes, said without its loop.
use network_sandbox_engine.Prelude.{
  Text, text_eq, given, upper, Bool, false, not, ◌&&◌, Option, none, some, List, [], ◌∷◌, any, keep,
  collect, if◌then◌else◌,
}
use network_sandbox_engine.Models.{TraceEvent}
use network_sandbox_engine.Runner.Verdicts.{
  traced, scaffold_table, is_blocked, is_accept, drop, accept,
}

-- The ids of the events, each once, in the order of first sight.
unfoldable pub first_seen : List TraceEvent → List Text
first_seen [] = []
first_seen (e ∷ es) =
    let rest = first_seen es in
    elim (traced e) [ none ↦ rest | some t ↦ t ∷ keep (λ u. not (text_eq u t)) rest ]

-- Whether an event speaks for the ruleset under test, on the packet `t`.
abbrev pub concerns : Text → TraceEvent → Bool
concerns t e =
    elim (traced e) [ none ↦ false | some u ↦ text_eq t u ]
    && elim (given e.table) [ none ↦ false | some table ↦ not (text_eq table scaffold_table) ]

-- The verdicts of the ruleset under test on the packet `t`, in order.
unfoldable pub user_verdicts : Text → List TraceEvent → List Text
user_verdicts t [] = []
user_verdicts t (e ∷ es) =
    let rest = user_verdicts t es in
    if concerns t e then elim (given e.verdict) [ none ↦ rest | some v ↦ upper v ∷ rest ] else rest

-- A packet that one chain blocks did not get through.
unfoldable pub summary : List Text → Option Text
summary vs = if any is_blocked vs then some drop else if any is_accept vs then some accept else none

unfoldable pub reduced : List TraceEvent → List Text
unfolding first_seen user_verdicts summary
reduced events = collect (λ t. summary (user_verdicts t events)) (first_seen events)
