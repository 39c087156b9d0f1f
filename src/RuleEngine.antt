-- ===== src/RuleEngine.antt =====
-- nse/core/rule_engine.py. What `mkstemp` returns and whether writing the file raises are arguments;
-- `os.unlink` of a file that exists is taken to succeed.
pub mod Errors
pub mod Files
pub mod Loads
mod Tests
use network_sandbox_engine.Prelude.{
  ℕ, Text, codes, ◌==◌, Option, none, some, List, [], ◌∷◌, ◌++◌, ◌⊎◌, inl, inr, if◌then◌else◌,
}
use network_sandbox_engine.Prelude.Dict.{insert, delete}
use network_sandbox_engine.Exceptions.{Exception}
use network_sandbox_engine.Shell.{
  System, World, ok, Call, ◌>>=◌, ◌>>◌, pure, raise, raised, finally, Completed, find,
  run_unchecked, exec_prefix,
}
use network_sandbox_engine.RuleEngine.Errors.{NftError, parse_nft_errors}

pub record TempFiles : Type 0 where
  pub mkstemp : System → Exception ⊎ Text
  pub write_error : System → Option Exception

-- The ruleset that switches tracing on.
abbrev pub trace_init : Text
trace_init =
    codes
      "\ntable inet nse_trace {\n  chain nse_trace_prerouting {\n    type filter hook prerouting priority -300; policy accept;\n    meta nftrace set 1\n  }\n}\n"

abbrev pub full_ruleset : Text → Text
full_ruleset rules = trace_init ++ codes "\n" ++ rules

-- The end of a check: in silence, or with a RuleValidationError, which carries the errors.
pub data Checked : Type 0 where
  accepted : Checked
  rejected : List NftError → Checked

abbrev pub unlink : Text → Call (Unit {0})
unlink path s = (ok tt, record s { temp_files = delete path s.temp_files })

abbrev pub write_file : Text → Text → System → System
write_file path text s = record s { temp_files = insert path text s.temp_files }

module _ (w : World) (tmp : TempFiles) where
  -- the body of the `with` block, once the file is there
  abbrev with_file : {X : Type 0} → Text → Text → (Text → Call X) → Call X
  with_file path rules body s =
      let s = write_file path [] s in
      elim (tmp.write_error s) [
        -- `__enter__` raises, so `__exit__` is not called
        | some e ↦ (raised e, s)
        | none ↦ finally (body path) (unlink path) (write_file path rules s)
      ]

  -- `with _temp_rules_file(rules) as path`
  unfoldable pub with_temp_rules : {X : Type 0} → Text → (Text → Call X) → Call X
  with_temp_rules rules body s = elim (tmp.mkstemp s) [
    | inl e ↦ (raised e, s)
    | inr path ↦ with_file path rules body s
  ]

  unfoldable pub check_result : Completed → Call Checked
  check_result done =
      pure (if done.returncode == 0 then accepted else rejected (parse_nft_errors done.stderr))

  unfoldable pub validate : Text → Call Checked
  validate rules = with_temp_rules rules (λ path. do
    nft ← find w (codes "nft")
    done ← run_unchecked w (nft ∷ codes "--check" ∷ codes "-f" ∷ path ∷ [])
    check_result done)

  abbrev pub no_netns : Exception
  no_netns =
      Exception.value_error (codes "netns_name must be provided, refusing to inject into init_net.")

  -- the `with` block of `load`
  unfoldable pub load_file : Text → Text → Call Checked
  load_file ns path = do
    prefix ← exec_prefix w ns
    nft ← find w (codes "nft")
    done ← run_unchecked w (prefix ++ nft ∷ codes "-f" ∷ path ∷ [])
    check_result done

  unfoldable pub load : Text → Text → Call Checked
  load rules [] = raise no_netns
  load rules (c ∷ ns) = with_temp_rules (full_ruleset rules) (load_file (c ∷ ns))

  unfoldable pub flush : Text → Call (Unit {0})
  flush ns = do
    prefix ← exec_prefix w ns
    nft ← find w (codes "nft")
    _ ← run_unchecked w (prefix ++ nft ∷ codes "flush" ∷ codes "ruleset" ∷ [])
    pure tt
