-- ===== src/Controller/Lifecycle/Destroy.antt =====
-- How `destroy_netns` ends.
use network_sandbox_engine.Prelude.{
  ℕ, zero, suc, ◌≤◌, Text, codes, List, [], ◌∷◌, ◌++◌, ◌≡◌, refl, sym, ◌∙◌, ap, arith, append-nil,
  append_assoc, inl, inr, ◌⊎◌, ◌==◌, Bool-cases,
}
use network_sandbox_engine.Exceptions.{Exception}
use network_sandbox_engine.Paths.{resolve_once}
use network_sandbox_engine.Shell.{
  Argv, System, Process, exited, killed, not_started, World, Result, ok, raised,
}
use network_sandbox_engine.Shell.Ends.{in_root-eq, run-eq, after_run, verdict}
use network_sandbox_engine.Controller.Lifecycle.{
  delete_netns, after_attempt, already_gone, destroy_attempts, destroy_netns, discard,
}

-- `n` times the same command
abbrev pub times : ℕ → Argv → List Argv
times zero cmd = []
times (suc n) cmd = cmd ∷ times n cmd

module _ (w : World) (name ip : Text) (found : resolve_once w.fs (codes "ip") ≡ inr ip) where
  abbrev pub deletion : Argv
  deletion = ip ∷ codes "netns" ∷ codes "del" ∷ name ∷ []

  -- The silent end, or the exception of a process that the system did not start.
  abbrev pub Ended : Result (Unit {0}) → Type 0
  Ended r =
      (r ≡ ok tt)
      ⊎ ((t : Text) × (s : System) × (w.process s deletion ≡ not_started t)
          × (r ≡ raised (Exception.os_error t)))

  -- The end of at most `n` attempts: each runs the same command, and nothing else changes; the end is
  -- silent, or an exception of a process that could not be started.
  pub record Attempted (n : ℕ) (s : System) (r : Result (Unit {0})) (s' : System) : Type 0 where
    pub count : ℕ
    pub bounded : count ≤ n
    pub ran : s'.ran ≡ s.ran ++ times count deletion
    pub same_names : s'.active_ns ≡ s.active_ns
    pub ended : Ended r

  delete_netns-eq :
      (s : System)
      → delete_netns w name s ≡ (verdict w deletion (w.process s deletion), after_run w deletion s)
  delete_netns-eq s =
      in_root-eq w (codes "ip") ip (codes "netns" ∷ codes "del" ∷ name ∷ []) s found
      ∙ run-eq w deletion s

  one_attempt :
      (n : ℕ) (s : System) (r : Result (Unit {0}))
      → Ended r
      → Attempted (suc n) s r (after_run w deletion s)
  one_attempt n s r e = record {
    count = 1;
    bounded = omega arith;
    ran = refl;
    same_names = refl;
    ended = e;
  }

  more_attempts :
      (n : ℕ) (s : System) (r : Result (Unit {0})) (s' : System)
      → Attempted n (after_run w deletion s) r s'
      → Attempted (suc n) s r s'
  more_attempts n s r s' a = record {
    count = suc a.count;
    bounded = omega (arith, a.bounded);
    ran = a.ran ∙ append_assoc s.ran (deletion ∷ []) (times a.count deletion);
    same_names = a.same_names;
    ended = a.ended;
  }

  destroy_attempts-Attempted :
      (n : ℕ) (s : System)
      → Attempted n s (destroy_attempts w n name s).0 (destroy_attempts w n name s).1
  unfolding destroy_attempts
  destroy_attempts-Attempted zero s = record {
    count = 0;
    bounded = omega arith;
    ran = sym (append-nil s.ran);
    same_names = refl;
    ended = inl refl;
  }
  destroy_attempts-Attempted (suc n) s =
      rw (delete_netns-eq s)
        (after (destroy_attempts-Attempted n (after_run w deletion s)) (w.process s deletion) refl)
    where
      after :
          Attempted n
            (after_run w deletion s)
            (destroy_attempts w n name (after_run w deletion s)).0
            (destroy_attempts w n name (after_run w deletion s)).1
          → (q : Process) → w.process s deletion ≡ q
          → let out =
              after_attempt w
                (destroy_attempts w n name)
                (verdict w deletion q)
                (after_run w deletion s) in
            Attempted (suc n) s out.0 out.1
      after rest (exited status out err) q = elim (Bool-cases (status == 0)) [
        | inl z ↦ rw z (one_attempt n s (ok tt) (inl refl))
        | inr z ↦ rw z (elim (Bool-cases (already_gone err)) [
          | inl g ↦ rw g (one_attempt n s (ok tt) (inl refl))
          | inr g ↦ rw g (more_attempts n s _ _ rest)
        ])
      ]
      after rest killed q = one_attempt n s (ok tt) (inl refl)
      after rest (not_started t) q = one_attempt n s _ (inr (t, s, q, refl))

  abbrev after_destroy : Result (Unit {0}) → List Text → List Text
  after_destroy (ok x) names = discard name names
  after_destroy _ names = names

  -- The end of `destroy_netns`.
  pub record Destroyed (s : System) (r : Result (Unit {0})) (s' : System) : Type 0 where
    pub count : ℕ
    pub bounded : count ≤ 3
    pub ran : s'.ran ≡ s.ran ++ times count deletion
    pub names : s'.active_ns ≡ after_destroy r s.active_ns
    pub ended : Ended r

  -- Where `ip` is found, `destroy_netns` runs the deletion of the namespace at most three times and no
  -- other command, and it ends in silence with the name forgotten, or in the OSError of a process that
  -- could not be started, with the names as they were. A status, a message or a timeout never leaves it.
  pub destroy_netns-Destroyed :
      (s : System) → Destroyed s (destroy_netns w name s).0 (destroy_netns w name s).1
  unfolding destroy_netns
  destroy_netns-Destroyed s =
      let a : Attempted 3 s (destroy_attempts w 3 name s).0 (destroy_attempts w 3 name s).1 =
        destroy_attempts-Attempted 3 s in
      elim a.ended [
        | inl e ↦
            rw (e, destroy_netns)
              (record {
                count = a.count;
                bounded = a.bounded;
                ran = a.ran;
                names = ap (discard name) a.same_names;
                ended = inl refl;
              })
        | inr (t, s₁, q, e) ↦
            rw (e, destroy_netns)
              (record {
                count = a.count;
                bounded = a.bounded;
                ran = a.ran;
                names = a.same_names;
                ended = inr (t, s₁, q, refl);
              })
      ]
