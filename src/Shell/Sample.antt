-- ===== src/Shell/Sample.antt =====
-- A small machine, for tests.
use network_sandbox_engine.Prelude.{
  ℕ, Text, codes, contains, false, none, some, List, [], ◌∷◌, if◌then◌else◌,
}
use network_sandbox_engine.Paths.{FileSystem}
use network_sandbox_engine.Shell.{World, exited}

abbrev programs : List Text
programs = codes "/sbin/ip" ∷ codes "/sbin/sysctl" ∷ codes "/sbin/nft" ∷ []

-- The programs are in /sbin; all is owned by root, with mode 0o755.
abbrev pub files : FileSystem
files = record {
  stat = λ p.
      if contains p (codes "/sbin" ∷ programs)
      then some (record { st_uid = 0; st_mode = 493 })
      else none;
  is_file = λ p. contains p programs;
  can_execute = λ p. contains p programs;
  repr_text = λ t. t;
}

abbrev pub world : ℕ → Text → Text → World
world status out err = record {
  fs = files;
  process = λ s cmd. exited status out err;
  use_nsenter = false;
}
