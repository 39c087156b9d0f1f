-- ===== src/RuleEngine/Tests.antt =====
-- The rule engine on a small machine.
use network_sandbox_engine.Prelude.{
  Text, codes, contains, text_eq, Bool, true, none, some, [], ◌∷◌, ◌≡◌, ◌≢◌, refl, inl, inr, ◌⊎◌,
  Option-cases, subst,
}
use network_sandbox_engine.Prelude.Dict.{lookup, insert, delete}
use network_sandbox_engine.Paths.{
  resolve_once, search_dirs, is_safely_owned, is_root_only, is_runnable, others_write, parent,
  candidate,
}
use network_sandbox_engine.Exceptions.{Exception}
use network_sandbox_engine.Shell.{System, World, ok, find, run_unchecked, exec_prefix}
use network_sandbox_engine.Shell.Sample.{world}
use network_sandbox_engine.RuleEngine.{
  TempFiles, accepted, validate, load, load_file, full_ruleset, with_temp_rules, check_result,
}
use network_sandbox_engine.RuleEngine.Files.{Works, temp_files-removed}
use network_sandbox_engine.RuleEngine.Loads.{Loaded, load-Loaded}
use network_sandbox_engine.RuleEngine.Errors.{nft_error_re, parse_nft_errors}
use network_sandbox_engine.Prelude.Spans.{run}
use network_sandbox_engine.RuleEngine.Errors.RoundTrip.{message, header, nft_error_re-header}
use network_sandbox_engine.RuleEngine.Errors.Grouped.{described, parse_nft_errors-eq}

abbrev rules_path : Text
rules_path = codes "/tmp/nse_rules_a.nft"

-- a directory with room for one file
abbrev directory : TempFiles
directory = record {
  mkstemp = λ s. elim (lookup rules_path s.temp_files) [
    | none ↦ inr rules_path
    | some _ ↦ inl (Exception.os_error (codes "File exists"))
  ];
  write_error = λ s. none;
}

abbrev healthy : World
healthy = world 0 [] []

-- nft refuses every file
abbrev strict : World
strict = world 1 [] (codes "/tmp/nse_rules_a.nft:3:5-9: Error: syntax error\nadd rulee\n")

abbrev start : System
start = record { ran = []; active_ns = []; temp_files = (codes "/tmp/other", []) ∷ [] }

abbrev some_rules : Text
some_rules = codes "add table inet t"

-- What a test computes with.
runs : Bool
unfolding resolve_once search_dirs is_safely_owned is_root_only is_runnable others_write parent
    candidate contains text_eq lookup insert delete find run_unchecked exec_prefix load load_file
    with_temp_rules check_result
runs = true

inr-injective : {X Y : Type 0} {a b : Y} → ◌≡◌ {A = X ⊎ Y} (inr a) (inr b) → a ≡ b
inr-injective e = cc

directory-fresh :
    (s : System) (path : Text) → directory.mkstemp s ≡ inr path → lookup path s.temp_files ≡ none
directory-fresh s path e = elim (Option-cases (lookup rules_path s.temp_files)) [
  | inl n ↦ subst (λ q. lookup q s.temp_files ≡ none) (inr-injective (rw (n, directory) at e)) n
  | inr (t, n) ↦ absurd (cc (rw (n, directory) at e))
]

directory-Works : Works strict directory
directory-Works = record { fresh = directory-fresh; writes = λ s. refl }

temp_files-removed_example :
    ((load strict directory some_rules (codes "nse_1") start).1.temp_files ≡ start.temp_files)
    × ((validate strict directory some_rules start).1.temp_files ≡ start.temp_files)
temp_files-removed_example =
    temp_files-removed strict directory directory-Works some_rules (codes "nse_1") start

loaded : (load healthy directory some_rules (codes "nse_1") start).0 ≡ ok accepted
unfolding runs
loaded = refl

load-Loaded_example :
    (codes "nse_1" ≢ [])
    × ((path : Text) × Loaded healthy (full_ruleset some_rules) (codes "nse_1") path)
load-Loaded_example = load-Loaded healthy directory some_rules (codes "nse_1") start loaded

abbrev output : Text
output = codes "/tmp/a.nft:3:5-9: Error: syntax error\n\n  add rulee\n      ^^^^^\n"

parse_nft_errors-eq_example : parse_nft_errors output ≡ described output
parse_nft_errors-eq_example = parse_nft_errors-eq output

nft_error_re-header_example :
    nft_error_re
      (header (codes "/tmp/a.nft") 31 (codes "5-9") (codes "Error") (codes "syntax error"))
    ≡ some (record {
      line = 31;
      column_range = codes "5-9";
      level = codes "Error";
      message = codes "syntax error";
    })
nft_error_re-header_example =
    nft_error_re-header (codes "/tmp/a.nft") 31 (codes "5-9") (codes "Error") (codes "syntax error")
      (run (refl, (refl, (refl, (refl, (refl, (refl, (refl, (refl, (refl, (refl, tt)))))))))))
      (run (refl, (refl, (refl, tt)))) (run (refl, (refl, (refl, (refl, (refl, tt))))))
      (message refl)
