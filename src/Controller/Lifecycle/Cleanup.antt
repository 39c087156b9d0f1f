-- ===== src/Controller/Lifecycle/Cleanup.antt =====
-- What `cleanup_all` leaves.
use network_sandbox_engine.Prelude.{
  Text, codes, text_eq, text_eq_refl, contains, Bool, true, false, not, ◌||◌, List, [], ◌∷◌, keep,
  ◌≡◌, ◌≢◌, refl, sym, ◌∙◌, ap, inl, inr, Bool-cases,
}
use network_sandbox_engine.Paths.{resolve_once}
use network_sandbox_engine.Shell.{Argv, System, not_started, World, ok}
use network_sandbox_engine.Controller.Lifecycle.{destroy_netns, destroy_each, cleanup_all, discard}
use network_sandbox_engine.Controller.Lifecycle.Destroy.{destroy_netns-Destroyed}

-- the names of a list that another one does not hold
abbrev pub without : List Text → List Text → List Text
without gone names = keep (λ n. not (contains n gone)) names

without-discard :
    (name : Text) (gone names : List Text)
    → without gone (discard name names) ≡ without (name ∷ gone) names
unfolding contains discard
without-discard name gone [] = refl
without-discard name gone (n ∷ names) = elim (Bool-cases (text_eq n name)) [
  | inl e ↦ rw (e, without-discard name gone names) refl
  | inr e ↦ rw (e, without-discard name gone names) refl
]

without-nil : (names : List Text) → without [] names ≡ names
unfolding contains
without-nil [] = refl
without-nil (n ∷ names) = rw (without-nil names) refl

or_true : (b : Bool) → (b || true) ≡ true
or_true true = refl
or_true false = refl

without_self :
    (names gone : List Text)
    → ((n : Text) → contains n names ≡ true → contains n gone ≡ true)
    → without gone names ≡ []
unfolding contains
without_self [] gone h = refl
without_self (n ∷ names) gone h =
    rw
      (
        h n (rw (text_eq_refl n) refl),
        without_self names gone (λ m c. h m (rw c (or_true (text_eq m n)))),
      )
      refl

module _ (w : World) (ip : Text) (found : resolve_once w.fs (codes "ip") ≡ inr ip) where
  -- A process whose program exists is started.
  abbrev pub Starts : Type 0
  Starts = (s : System) (cmd : Argv) (t : Text) → w.process s cmd ≢ not_started t

  module _ (starts : Starts) where
    pub destroy_netns-ok :
        (name : Text) (s : System)
        → ((destroy_netns w name s).0 ≡ ok tt)
          × ((destroy_netns w name s).1.active_ns ≡ discard name s.active_ns)
    destroy_netns-ok name s =
        let d = destroy_netns-Destroyed w name ip found s in
        elim d.ended [
          | inl e ↦ (e, d.names ∙ rw e refl)
          | inr (t, s₁, q, _) ↦ absurd (starts s₁ _ t q)
        ]

    destroy_each-ok :
        (names : List Text) (s : System)
        → ((destroy_each w names s).0 ≡ ok tt)
          × ((destroy_each w names s).1.active_ns ≡ without names s.active_ns)
    unfolding destroy_each
    destroy_each-ok [] s = (refl, sym (without-nil s.active_ns))
    destroy_each-ok (name ∷ names) s =
        let (e, n) = destroy_netns-ok name s in
        let (e', n') = destroy_each-ok names (destroy_netns w name s).1 in
        rw e (e', n' ∙ ap (without names) n ∙ without-discard name names s.active_ns)

    -- Where `ip` is found and every process is started, `cleanup_all` ends in silence and leaves no
    -- namespace in the set, whatever each deletion prints and returns, and also where it times out.
    pub cleanup_all-empty :
        (s : System) → ((cleanup_all w s).0 ≡ ok tt) × ((cleanup_all w s).1.active_ns ≡ [])
    unfolding cleanup_all
    cleanup_all-empty s =
        let (e, n) = destroy_each-ok s.active_ns s in
        (e, n ∙ without_self s.active_ns s.active_ns (λ m c. c))
