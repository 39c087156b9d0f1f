-- ===== src/RuleEngine/Loads.antt =====
-- What it takes for rules to be loaded.
use network_sandbox_engine.Prelude.{
  Text, codes, some, [], ◌∷◌, ◌++◌, ◌≡◌, ◌≢◌, ◌∙◌, ap, inl, inr, Option-cases, Bool-cases, ◌==◌,
  ==_iff,
}
use network_sandbox_engine.Prelude.Dict.{lookup, lookup-insert_same}
use network_sandbox_engine.Paths.Cache.{Resolved-cases}
use network_sandbox_engine.Shell.{
  Argv, System, World, exited, ok, Call, find, run_unchecked, exec_prefix, Completed,
}
use network_sandbox_engine.Shell.Runs.{IsProgram, IsPrefix, Runs-find, Runs-exec_prefix, Always}
use network_sandbox_engine.RuleEngine.{
  TempFiles, unlink, write_file, with_file, accepted, with_temp_rules, check_result, load_file,
  load, full_ruleset,
}
use network_sandbox_engine.Shell.Returned.{bind-Returned, finally-ok, run_unchecked-exited}
use network_sandbox_engine.RuleEngine.Files.{SameFiles-find, SameFiles-exec_prefix}

module _ (w : World) where
  -- nft read the file that holds the ruleset, in the namespace, and exited with 0.
  pub record Loaded (text ns path : Text) : Type 0 where
    pub before : System
    pub prefix : Argv
    pub nft : Text
    pub out : Text
    pub err : Text
    pub holds : lookup path before.temp_files ≡ some text
    pub enters : IsPrefix w ns prefix
    pub resolved : IsProgram w nft
    pub exits : w.process before (prefix ++ nft ∷ codes "-f" ∷ path ∷ []) ≡ exited 0 out err

  module _ (tmp : TempFiles) where
    check_result-accepted :
        (done : Completed) (s : System)
        → (check_result w tmp done s).0 ≡ ok accepted
        → done.returncode ≡ 0
    unfolding check_result
    check_result-accepted done s h = elim (Bool-cases (done.returncode == 0)) [
      | inl e ↦ (==_iff done.returncode 0).0 e
      | inr e ↦ absurd (cc (rw (e, check_result) at h))
    ]

    load_file-Loaded :
        (text ns path : Text) (s : System)
        → lookup path s.temp_files ≡ some text
        → (load_file w tmp ns path s).0 ≡ ok accepted
        → Loaded text ns path
    unfolding load_file
    load_file-Loaded text ns path s held h =
        let a = bind-Returned (exec_prefix w ns) _ s accepted h in
        let s₁ = (exec_prefix w ns s).1 in
        let b = bind-Returned (find w (codes "nft")) _ s₁ accepted a.rest in
        let s₂ = (find w (codes "nft") s₁).1 in
        let c =
          bind-Returned (run_unchecked w (a.first ++ b.first ∷ codes "-f" ∷ path ∷ []))
            (check_result w tmp) s₂ accepted b.rest in
        let d =
          run_unchecked-exited w (a.first ++ b.first ∷ codes "-f" ∷ path ∷ []) s₂ c.first
            c.returns in
        record {
          before = s₂;
          prefix = a.first;
          nft = b.first;
          out = c.first.stdout;
          err = c.first.stderr;
          holds =
              ap (lookup path)
                ((SameFiles-find w (codes "nft")).at s₁ ∙ (SameFiles-exec_prefix w ns).at s)
              ∙ held;
          enters = (Runs-exec_prefix {Q = Always} w ns).value s a.first a.returns;
          resolved = (Runs-find {Q = Always} w (codes "nft")).value s₁ b.first b.returns;
          exits =
              d
              ∙ ap (λ n. exited n c.first.stdout c.first.stderr)
                  (check_result-accepted c.first _ c.rest);
        }

    -- Where the block returns, its body has returned, on a path at which the file holds the text.
    with_temp_rules-body :
        {X : Type 0} {G : Text → Type 0} (rules : Text) (body : Text → Call X) (s : System) (x : X)
        → (with_temp_rules w tmp rules body s).0 ≡ ok x
        → ((path : Text) (s' : System)
            → lookup path s'.temp_files ≡ some rules
            → (body path s').0 ≡ ok x
            → G path)
        → (path : Text) × G path
    unfolding with_temp_rules
    with_temp_rules-body rules body s x h k = elim (Resolved-cases w.fs (tmp.mkstemp s)) [
      | inl (e, q) ↦ absurd (cc (rw (q, with_temp_rules) at h))
      | inr (path, q) ↦ elim (Option-cases (tmp.write_error (write_file path [] s))) [
        | inl n ↦
            let s' = write_file path rules (write_file path [] s) in
            (
              path,
              k path s' (lookup-insert_same path rules _) (
                  finally-ok (body path) (unlink path) s' x
                    (rw (q, with_temp_rules, with_file, n) at h)),
            )
        | inr (e, n) ↦ absurd (cc (rw (q, with_temp_rules, with_file, n) at h))
      ]
    ]

    -- A load that ends without an exception had the rules behind the tracing table in the temporary file
    -- when nft, entered into the namespace and resolved, read that file and exited with 0; and the name
    -- of the namespace was not empty.
    pub load-Loaded :
        (rules ns : Text) (s : System)
        → (load w tmp rules ns s).0 ≡ ok accepted
        → (ns ≢ []) × ((path : Text) × Loaded (full_ruleset rules) ns path)
    unfolding load with_temp_rules
    load-Loaded rules [] s h = absurd (cc)
    load-Loaded rules (c ∷ ns) s h = (
      (λ e. absurd (cc)),
      with_temp_rules-body (full_ruleset rules) (load_file w tmp (c ∷ ns)) s accepted h
          (load_file-Loaded (full_ruleset rules) (c ∷ ns)),
    )
