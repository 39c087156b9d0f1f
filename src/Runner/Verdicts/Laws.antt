-- ===== src/Runner/Verdicts/Laws.antt =====
-- The loop of `reduce_verdicts` against its description.
use mathlib.Core.List.{foldl}
use network_sandbox_engine.Prelude.{
  Text, text_eq, text_eq_iff, contains, contains-append, true, false, not, ◌||◌, Option, none, List,
  [], ◌∷◌, ◌++◌, any, keep, collect, append-nil, append_assoc, ◌≡◌, refl, arith, Option-cases, inl,
  inr, sym,
}
use network_sandbox_engine.Prelude.Dict.{lookup}
use network_sandbox_engine.Models.{TraceEvent}
use network_sandbox_engine.Runner.Verdicts.{
  traced, Reduction, observe, conclude, judge, start, reduce_verdicts,
}
use network_sandbox_engine.Runner.Verdicts.Reduced.{
  first_seen, concerns, user_verdicts, summary, reduced,
}
use network_sandbox_engine.Runner.Verdicts.Steps.{
  seen_of, has, added, seen-observe, has-observe, reached-observe, order-observe,
}

seen-foldl :
    (t : Text) (s : Reduction) (es : List TraceEvent)
    → seen_of t (foldl observe s es) ≡ seen_of t s ++ user_verdicts t es
unfolding user_verdicts
seen-foldl t s [] = sym (append-nil _)
seen-foldl t s (e ∷ es) = ground (
  arith,
  seen-foldl t (observe s e) es,
  seen-observe t s e,
  append_assoc (seen_of t s) (added t e) (user_verdicts t es),
)

reached-foldl :
    (t : Text) (s : Reduction) (es : List TraceEvent)
    → contains t (foldl observe s es).reached_user_ruleset
      ≡ (contains t s.reached_user_ruleset || any (concerns t) es)
reached-foldl t s [] = ground arith
reached-foldl t s (e ∷ es) = ground (arith, reached-foldl t (observe s e) es, reached-observe t s e)

-- The files that are open are those of the ids in the order.
IsConsistent : Reduction → Type 0
IsConsistent s = (t : Text) → has t s ≡ contains t s.order

observe-IsConsistent :
    (s : Reduction) (e : TraceEvent) → IsConsistent s → IsConsistent (observe s e)
unfolding IsConsistent contains
observe-IsConsistent s e h t = elim (Option-cases (traced e)) [
  | inl p ↦ ground (arith, h t, has-observe t s e, order-observe s e, append-nil s.order)
  | inr (u, p) ↦ ground (
    arith,
    h t,
    h u,
    has-observe t s e,
    order-observe s e,
    append-nil s.order,
    contains-append t s.order (u ∷ []),
    text_eq_iff t u,
  )
]

-- The ids of the list that are not in `old`.
abbrev fresh : List Text → List Text → List Text
fresh old = keep (λ u. not (contains u old))

fresh-append :
    (old : List Text) (t : Text) (us : List Text)
    → fresh (old ++ t ∷ []) us ≡ fresh old (keep (λ u. not (text_eq u t)) us)
unfolding contains
fresh-append old t [] = refl
fresh-append old t (u ∷ us) = ground (arith, fresh-append old t us, contains-append u old (t ∷ []))

fresh-keep :
    (old : List Text) (t : Text) (us : List Text)
    → contains t old ≡ true
    → fresh old (keep (λ u. not (text_eq u t)) us) ≡ fresh old us
fresh-keep old t [] h = refl
fresh-keep old t (u ∷ us) h = ground (arith, fresh-keep old t us h, text_eq_iff u t)

order-foldl :
    (s : Reduction) (es : List TraceEvent)
    → IsConsistent s
    → (foldl observe s es).order ≡ s.order ++ fresh s.order (first_seen es)
unfolding first_seen IsConsistent
order-foldl s [] h = sym (append-nil _)
order-foldl s (e ∷ es) h = elim (Option-cases (traced e)) [
  | inl p ↦ ground (
    arith,
    order-foldl (observe s e) es (observe-IsConsistent s e h),
    order-observe s e,
    append-nil s.order,
  )
  | inr (t, p) ↦ ground (
    arith,
    order-foldl (observe s e) es (observe-IsConsistent s e h),
    order-observe s e,
    append-nil s.order,
    h t,
    fresh-append s.order t (first_seen es),
    fresh-keep s.order t (first_seen es),
    append_assoc s.order (t ∷ []) (fresh s.order (keep (λ u. not (text_eq u t)) (first_seen es))),
  )
]

fresh-nil : (us : List Text) → fresh [] us ≡ us
unfolding contains
fresh-nil [] = refl
fresh-nil (u ∷ us) = ground (arith, fresh-nil us)

no_concern :
    (t : Text) (es : List TraceEvent) → any (concerns t) es ≡ false → user_verdicts t es ≡ []
unfolding user_verdicts
no_concern t [] h = refl
no_concern t (e ∷ es) h = ground (arith, no_concern t es)

judge-eq-summary : (vs : List Text) → judge vs ≡ summary vs
unfolding judge summary
judge-eq-summary vs = refl

summary-nil : summary [] ≡ none
unfolding summary
summary-nil = refl

conclude-foldl :
    (es : List TraceEvent) (t : Text)
    → conclude (foldl observe start es) t ≡ summary (user_verdicts t es)
unfolding conclude contains lookup
conclude-foldl es t = ground (
  arith,
  reached-foldl t start es,
  seen-foldl t start es,
  no_concern t es,
  judge-eq-summary (user_verdicts t es),
  summary-nil,
)

collect-ext :
    {A : Type 0} (f g : A → Option Text)
    → ((a : A) → f a ≡ g a)
    → (xs : List A) → collect f xs ≡ collect g xs
collect-ext f g h [] = refl
collect-ext f g h (a ∷ xs) = ground (arith, h a, collect-ext f g h xs)

start-IsConsistent : IsConsistent start
unfolding IsConsistent lookup contains
start-IsConsistent t = refl

-- For every stream of events, the loop returns one verdict for each trace id that has one, in the
-- order in which the ids were first seen: DROP if the ruleset under test blocked the packet
-- anywhere, else ACCEPT if it accepted it anywhere.
pub reduce_verdicts-eq-reduced :
    (events : List TraceEvent) → reduce_verdicts events ≡ reduced events
unfolding reduce_verdicts reduced
reduce_verdicts-eq-reduced events =
    rw (order-foldl start events start-IsConsistent, fresh-nil (first_seen events))
      (collect-ext (conclude (foldl observe start events)) (λ t. summary (user_verdicts t events))
        (conclude-foldl events) (first_seen events))
