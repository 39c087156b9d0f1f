-- ===== src/Runner/Verdicts/Steps.antt =====
-- What one round of the loop does to each of its variables.
use network_sandbox_engine.Prelude.{
  Text, text_eq, text_eq_iff, contains, contains-add, given, upper, Bool, true, false, not, ◌||◌,
  ◌&&◌, none, some, List, [], ◌∷◌, ◌++◌, if◌then◌else◌, append-nil, ◌≡◌, arith, Option-cases, inl,
  inr,
}
use network_sandbox_engine.Prelude.Dict.{lookup, lookup-insert}
use network_sandbox_engine.Models.{TraceEvent}
use network_sandbox_engine.Runner.Verdicts.{
  traced, scaffold_table, Reduction, append_verdict, enter, note_verdict, mark, observe,
}
use network_sandbox_engine.Runner.Verdicts.Reduced.{concerns}

-- The verdicts on file for `t`.
abbrev pub seen_of : Text → Reduction → List Text
seen_of t s = elim (lookup t s.verdicts) [ none ↦ [] | some vs ↦ vs ]

abbrev pub has : Text → Reduction → Bool
has t s = elim (lookup t s.verdicts) [ none ↦ false | some _ ↦ true ]

-- What an event adds to the file of `t`.
abbrev pub added : Text → TraceEvent → List Text
added t e =
    if concerns t e then elim (given e.verdict) [ none ↦ [] | some v ↦ upper v ∷ [] ] else []

module _ (t u : Text) (s : Reduction) where
  seen-enter : seen_of t (enter u s) ≡ seen_of t s
  unfolding enter
  seen-enter = ground (arith, lookup-insert u t [] s.verdicts, text_eq_iff t u)

  has-enter : has t (enter u s) ≡ (text_eq t u || has t s)
  unfolding enter
  has-enter = ground (arith, lookup-insert u t [] s.verdicts, text_eq_iff t u)

  seen-append :
      (v : Text)
      → has u s ≡ true
      → seen_of t (record s { verdicts = append_verdict u v s.verdicts })
        ≡ seen_of t s ++ (if text_eq t u then v ∷ [] else [])
  unfolding append_verdict
  seen-append v h = elim (Option-cases (lookup u s.verdicts)) [
    | inl e ↦ ground (arith)
    | inr (seen, e) ↦ ground (
      arith,
      lookup-insert u t (seen ++ v ∷ []) s.verdicts,
      text_eq_iff t u,
      append-nil (seen_of t s),
    )
  ]

  has-append : (v : Text) → has t (record s { verdicts = append_verdict u v s.verdicts }) ≡ has t s
  unfolding append_verdict
  has-append v = elim (Option-cases (lookup u s.verdicts)) [
    | inl e ↦ ground (arith)
    | inr (seen, e) ↦ ground (arith, lookup-insert u t (seen ++ v ∷ []) s.verdicts, text_eq_iff t u)
  ]

module _ (t u : Text) (e : TraceEvent) (s : Reduction) where
  -- What `mark` adds to the file of `t`, for an event that is filed under `u`.
  abbrev marked : Bool
  marked =
      text_eq t u
      && elim (given e.table) [ none ↦ false | some table ↦ not (text_eq table scaffold_table) ]

  seen-mark :
      has u s ≡ true
      → seen_of t (mark u e s)
        ≡ seen_of t s
          ++ (if marked then elim (given e.verdict) [ none ↦ [] | some v ↦ upper v ∷ [] ] else [])
  unfolding mark note_verdict
  seen-mark h = elim (Option-cases (given e.table)) [
    | inl p ↦ ground (arith, append-nil (seen_of t s))
    | inr (table, p) ↦ elim (Option-cases (given e.verdict)) [
      | inl q ↦ ground (arith, append-nil (seen_of t s))
      | inr (v, q) ↦ ground (arith, append-nil (seen_of t s), seen-append t u s (upper v) h)
    ]
  ]

  has-mark : has t (mark u e s) ≡ has t s
  unfolding mark note_verdict
  has-mark = elim (Option-cases (given e.table)) [
    | inl p ↦ ground (arith)
    | inr (table, p) ↦ elim (Option-cases (given e.verdict)) [
      | inl q ↦ ground (arith)
      | inr (v, q) ↦ ground (arith, has-append t u s (upper v))
    ]
  ]

  reached-mark :
      contains t (mark u e s).reached_user_ruleset ≡ (contains t s.reached_user_ruleset || marked)
  unfolding mark note_verdict
  reached-mark = ground (arith, contains-add t u s.reached_user_ruleset)

  order-mark : (mark u e s).order ≡ s.order
  unfolding mark note_verdict
  order-mark = ground arith

module _ (t : Text) (s : Reduction) (e : TraceEvent) where
  pub seen-observe : seen_of t (observe s e) ≡ seen_of t s ++ added t e
  unfolding observe
  seen-observe = elim (Option-cases (traced e)) [
    | inl p ↦ ground (arith, append-nil (seen_of t s))
    | inr (u, p) ↦
        ground
          (arith, seen-mark t u e (enter u s), seen-enter t u s, has-enter u u s, text_eq_iff u u)
  ]

  pub has-observe :
      has t (observe s e) ≡ (elim (traced e) [ none ↦ false | some u ↦ text_eq t u ] || has t s)
  unfolding observe
  has-observe = elim (Option-cases (traced e)) [
    | inl p ↦ ground (arith)
    | inr (u, p) ↦ ground (arith, has-mark t u e (enter u s), has-enter t u s)
  ]

  pub reached-observe :
      contains t (observe s e).reached_user_ruleset
      ≡ (contains t s.reached_user_ruleset || concerns t e)
  unfolding observe enter
  reached-observe = elim (Option-cases (traced e)) [
    | inl p ↦ ground (arith)
    | inr (u, p) ↦ ground (arith, reached-mark t u e (enter u s))
  ]

-- An id joins the order exactly when its file is opened.
pub order-observe :
    (s : Reduction) (e : TraceEvent)
    → (observe s e).order
      ≡ s.order ++ elim (traced e) [ none ↦ [] | some u ↦ (if has u s then [] else u ∷ []) ]
unfolding observe enter
order-observe s e = elim (Option-cases (traced e)) [
  | inl p ↦ ground (arith, append-nil s.order)
  | inr (u, p) ↦ ground (arith, order-mark u u e (enter u s), append-nil s.order)
]
