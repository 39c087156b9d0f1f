-- ===== src/RuleEngine/Files.antt =====
-- No rules file is left behind.
use network_sandbox_engine.Prelude.{
  Text, codes, none, [], ◌∷◌, ◌++◌, ◌≡◌, refl, ◌∙◌, ap, inl, inr, if◌then◌else◌, Bool, true, false,
}
use network_sandbox_engine.Prelude.Dict.{lookup, delete, delete-insert, insert-insert}
use network_sandbox_engine.Paths.{resolve_once}
use network_sandbox_engine.Paths.Cache.{Resolved-cases}
use network_sandbox_engine.Shell.{
  Argv, System, World, Result, ok, failed, expired, raised, Call, follow, ◌>>=◌, pure, Completed,
  find, run_unchecked, exec_prefix,
}
use network_sandbox_engine.RuleEngine.{
  TempFiles, with_file, write_file, with_temp_rules, check_result, validate, load_file, load,
  full_ruleset,
}

-- A call that leaves the temporary files as they are.
pub record SameFiles {X : Type 0} (a : Call X) : Type 0 where
  pub at : (s : System) → (a s).1.temp_files ≡ s.temp_files

SameFiles-follow :
    {X Y : Type 0} (r : Result X) (f : X → Call Y) (s : System)
    → ((x : X) → SameFiles (f x))
    → (follow r f s).1.temp_files ≡ s.temp_files
SameFiles-follow (ok x) f s k = (k x).at s
SameFiles-follow (failed _ _ _) f s k = refl
SameFiles-follow (expired _) f s k = refl
SameFiles-follow (raised _) f s k = refl

SameFiles-bind :
    {X Y : Type 0} (a : Call X) (f : X → Call Y)
    → SameFiles a
    → ((x : X) → SameFiles (f x))
    → SameFiles (a >>= f)
SameFiles-bind a f p k = record { at = λ s. SameFiles-follow (a s).0 f (a s).1 k ∙ p.at s }

SameFiles-pure : {X : Type 0} (x : X) → SameFiles (pure x)
SameFiles-pure x = record { at = λ s. refl }

SameFiles-if :
    {X : Type 0} (b : Bool) (a a' : Call X)
    → SameFiles a
    → SameFiles a'
    → SameFiles (if b then a else a')
SameFiles-if true a a' p q = p
SameFiles-if false a a' p q = q

module _ (w : World) where
  pub SameFiles-find : (binary : Text) → SameFiles (find w binary)
  unfolding find
  SameFiles-find binary = record {
    at = λ s. elim (Resolved-cases w.fs (resolve_once w.fs binary)) [
      | inl (e, q) ↦ rw (q, find) refl
      | inr (path, q) ↦ rw (q, find) refl
    ];
  }

  SameFiles-run : (cmd : Argv) → SameFiles (run_unchecked w cmd)
  unfolding run_unchecked
  SameFiles-run cmd = record { at = λ s. refl }

  pub SameFiles-exec_prefix : (name : Text) → SameFiles (exec_prefix w name)
  unfolding exec_prefix
  SameFiles-exec_prefix name =
      SameFiles-if w.use_nsenter _ _
        (SameFiles-bind _ _ (SameFiles-find (codes "nsenter")) (λ p. SameFiles-pure _))
        (SameFiles-bind _ _ (SameFiles-find (codes "ip")) (λ p. SameFiles-pure _))

  module _ (tmp : TempFiles) where
    SameFiles-check : (done : Completed) → SameFiles (check_result w tmp done)
    unfolding check_result
    SameFiles-check done = record { at = λ s. refl }

    SameFiles-load_file : (ns path : Text) → SameFiles (load_file w tmp ns path)
    unfolding load_file
    SameFiles-load_file ns path =
        SameFiles-bind (exec_prefix w ns) _ (SameFiles-exec_prefix ns) (λ prefix.
          SameFiles-bind (find w (codes "nft")) _ (SameFiles-find (codes "nft")) (λ nft.
            SameFiles-bind (run_unchecked w (prefix ++ nft ∷ codes "-f" ∷ path ∷ [])) _
              (SameFiles-run _) SameFiles-check))

    -- The two facts about files on which the engine relies: `mkstemp` returns a path that was not there,
    -- and the text can be written.
    pub record Works : Type 0 where
      pub fresh :
          (s : System) (path : Text) → tmp.mkstemp s ≡ inr path → lookup path s.temp_files ≡ none
      pub writes : (s : System) → tmp.write_error s ≡ none

    module _ (k : Works) where
      with_temp_rules-files :
          {X : Type 0} (rules : Text) (body : Text → Call X) (s : System)
          → ((path : Text) → SameFiles (body path))
          → (with_temp_rules w tmp rules body s).1.temp_files ≡ s.temp_files
      unfolding with_temp_rules
      with_temp_rules-files rules body s same = elim (Resolved-cases w.fs (tmp.mkstemp s)) [
        | inl (e, q) ↦ rw (q, with_temp_rules) refl
        | inr (path, q) ↦
            rw (q, with_temp_rules, with_file, k.writes (write_file path [] s))
              (ap (delete path) (
                  (same path).at (write_file path rules (write_file path [] s))
                  ∙ insert-insert path rules [] s.temp_files)
                ∙ delete-insert path rules s.temp_files (k.fresh s path q))
      ]

      validate-files :
          (rules : Text) (s : System) → (validate w tmp rules s).1.temp_files ≡ s.temp_files
      unfolding validate
      validate-files rules s = with_temp_rules-files rules _ s (λ path.
          SameFiles-bind (find w (codes "nft")) _ (SameFiles-find (codes "nft")) (λ nft.
            SameFiles-bind (run_unchecked w (nft ∷ codes "--check" ∷ codes "-f" ∷ path ∷ [])) _
              (SameFiles-run _) SameFiles-check))

      -- Neither a load nor a dry run leaves a rules file, however nft and the calls before it end, where
      -- `mkstemp` returns a path that was not there and the file can be written.
      pub temp_files-removed :
          (rules ns : Text) (s : System)
          → ((load w tmp rules ns s).1.temp_files ≡ s.temp_files)
            × ((validate w tmp rules s).1.temp_files ≡ s.temp_files)
      unfolding load validate
      temp_files-removed rules [] s = (refl, validate-files rules s)
      temp_files-removed rules (c ∷ ns) s = (
        with_temp_rules-files (full_ruleset rules) (load_file w tmp (c ∷ ns)) s
            (SameFiles-load_file (c ∷ ns)),
        validate-files rules s,
      )
