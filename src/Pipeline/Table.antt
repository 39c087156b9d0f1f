-- ===== src/Pipeline/Table.antt =====
-- The two subprocess calls of `read_conntrack_table` of nse/core/pipeline.py.
use network_sandbox_engine.Prelude.{Text, codes, strip, ◌==◌, List, [], ◌∷◌, ◌++◌, if◌then◌else◌}
use network_sandbox_engine.Exceptions.{is_os_error}
use network_sandbox_engine.Shell.{
  Argv, World, Result, ok, failed, expired, raised, Call, ◌>>=◌, pure, Completed, find,
  run_unchecked, exec_prefix,
}

-- `t.split("\n")`; `word` is the line that is being read
unfoldable pub lines_of : Text → Text → List Text
lines_of word [] = word ∷ []
lines_of word (c ∷ t) =
    let next = lines_of [] t in
    let same = lines_of (word ++ c ∷ []) t in if c == 10 then word ∷ next else same

-- `except (subprocess.CalledProcessError, OSError)`, where `other` is the handler
abbrev otherwise : {X : Type 0} → Call X → Result X → Call X
otherwise other (failed cmd status stderr) = other
otherwise other (raised e) = if is_os_error e then other else λ s. (raised e, s)
otherwise other (ok x) = pure x
otherwise other (expired cmd) = λ s. (expired cmd, s)

abbrev try : {X : Type 0} → Call X → Call X → Call X
try a other s = let (r, s) = a s in otherwise other r s

module _ (w : World) where
  abbrev file_lines : Argv → Completed → Call (List Text)
  file_lines cmd done =
      if done.returncode == 0 then pure (lines_of [] (strip done.stdout)) else λ s.
      (failed cmd done.returncode done.stderr, s)

  unfoldable pub read_file : Argv → Text → Call (List Text)
  read_file exec_cmd path = do
    cat ← find w (codes "cat")
    done ← run_unchecked w (exec_cmd ++ cat ∷ path ∷ [])
    file_lines (exec_cmd ++ cat ∷ path ∷ []) done

  -- The lines of the table; `[]` stands for the early return, which gives no entry either.
  unfoldable pub read_table_lines : Text → Call (List Text)
  read_table_lines netns = do
    exec_cmd ← exec_prefix w netns
    try (read_file exec_cmd (codes "/proc/net/nf_conntrack"))
        (try (read_file exec_cmd (codes "/proc/net/ip_conntrack")) (pure []))
