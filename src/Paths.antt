-- ===== src/Paths.antt =====
-- nse/core/paths.py: the resolution of the binaries that the engine runs as root. The file system is
-- an argument: what `stat`, `is_file` and `os.access` say of a path.
pub mod Search
pub mod Cache
mod Tests
use network_sandbox_engine.Prelude.{
  ℕ, ◌/◌, ◌%◌, Text, codes, text_eq, Bool, true, false, not, ◌&&◌, ◌||◌, Option, none, some, List,
  [], ◌∷◌, ◌++◌, any, ◌⊎◌, inl, inr, ◌==◌, if◌then◌else◌,
}
use network_sandbox_engine.Prelude.Dict.{Dict, lookup, insert}
use network_sandbox_engine.Exceptions.{Exception}

pub record FileInfo : Type 0 where
  pub st_uid : ℕ
  pub st_mode : ℕ

pub record FileSystem : Type 0 where
  -- `none` if `stat` raises an OSError
  pub stat : Text → Option FileInfo
  pub is_file : Text → Bool
  pub can_execute : Text → Bool
  -- `repr` of a string
  pub repr_text : Text → Text

abbrev pub trusted_dirs : List Text
trusted_dirs =
    codes "/usr/sbin"
    ∷ codes "/sbin"
    ∷ codes "/usr/bin"
    ∷ codes "/bin"
    ∷ codes "/usr/local/sbin"
    ∷ codes "/usr/local/bin"
    ∷ []

-- What stands before the last slash.
before_slash : Text → Option Text
before_slash [] = none
before_slash (c ∷ t) = elim (before_slash t) [
  | some before ↦ some (c ∷ before)
  | none ↦ if c == b'/' then some [] else none
]

-- `path.parent`
unfoldable pub parent : Text → Text
unfolding before_slash
parent path = elim (before_slash path) [
  | none ↦ codes "."
  | some before ↦ elim before [ [] ↦ codes "/" | c ∷ t ↦ c ∷ t ]
]

-- `Path(directory) / binary`, for a name without a slash; pathlib drops a single dot
unfoldable pub candidate : Text → Text → Text
candidate binary directory =
    if text_eq binary (codes ".") then directory else directory ++ codes "/" ++ binary

-- `mode & (S_IWGRP | S_IWOTH)`: the bits 0o020 and 0o002
unfoldable pub others_write : ℕ → Bool
others_write mode = (mode / 16 % 2 == 1) || (mode / 2 % 2 == 1)

module _ (fs : FileSystem) where
  -- the body of the loop of `_is_safely_owned`
  unfoldable pub is_root_only : Text → Bool
  is_root_only target = elim (fs.stat target) [
    | none ↦ false
    | some info ↦ (info.st_uid == 0) && not (others_write info.st_mode)
  ]

  unfoldable pub is_safely_owned : Text → Bool
  is_safely_owned path = is_root_only path && is_root_only (parent path)

  unfoldable pub is_runnable : Text → Bool
  is_runnable path = fs.is_file path && fs.can_execute path

  -- the path, or the exception that is raised
  abbrev pub Resolved : Type 0
  Resolved = Exception ⊎ Text

  abbrev pub unsafe : Text → Exception
  unsafe path = Exception.unsafe_binary (
      path
      ++ codes
          " is executable but not owned exclusively by root, so a non-root user could replace it before NSE runs it with full privileges. Refusing to execute it.")

  -- the loop over the directories, with the paths that were searched
  unfoldable pub search_dirs : (List Text → Exception) → List Text → List Text → Text → Resolved
  search_dirs missing searched [] binary = inl (missing searched)
  search_dirs missing searched (d ∷ ds) binary =
      let path = candidate binary d in
      let rest = search_dirs missing (searched ++ path ∷ []) ds binary in
      if not (is_runnable path)
      then rest
      else if not (is_safely_owned path)
      then inl (unsafe path)
      else inr path

  -- `", ".join(searched)`
  comma_joined : List Text → Text
  comma_joined [] = []
  comma_joined (x ∷ []) = x
  comma_joined (x ∷ y ∷ xs) = x ++ codes ", " ++ comma_joined (y ∷ xs)

  pub not_found : Text → List Text → Exception
  unfolding comma_joined
  not_found binary searched = Exception.binary_not_found (
      codes "Required binary '"
      ++ binary
      ++ codes "' was not found in any trusted directory. Searched: "
      ++ comma_joined searched
      ++ codes
          ". NSE deliberately does not consult $PATH, because a caller-controlled PATH would let an attacker choose which program runs as root.")

  -- `not binary or "/" in binary`
  abbrev pub is_bare_name : Text → Bool
  is_bare_name [] = false
  is_bare_name (c ∷ t) = not (any (λ x. x == b'/') (c ∷ t))

  abbrev pub not_bare : Text → Exception
  not_bare binary =
      Exception.value_error
        (codes "resolve() takes a bare binary name, not " ++ fs.repr_text binary)

  -- `resolve`, without its cache
  unfoldable pub resolve_once : Text → Resolved
  resolve_once binary =
      if is_bare_name binary
      then search_dirs (not_found binary) [] trusted_dirs binary
      else inl (not_bare binary)

  -- `resolve`: `functools.cache` keeps what a call returned, and no exception.
  unfoldable pub resolve : Dict Text → Text → Resolved × Dict Text
  resolve cached binary = elim (lookup binary cached) [
    | some path ↦ (inr path, cached)
    | none ↦ elim (resolve_once binary) [
      | inl exc ↦ (inl exc, cached)
      | inr path ↦ (inr path, insert binary path cached)
    ]
  ]

  -- `None` for a binary that is absent; another exception propagates
  unfoldable pub resolve_optional : Dict Text → Text → (Exception ⊎ Option Text) × Dict Text
  resolve_optional cached binary =
      let (result, cached) = resolve cached binary in
      (
        elim result [
          | inr path ↦ inr (some path)
          | inl exc ↦ elim exc as (λ _. Exception ⊎ Option Text) [
            | Exception.binary_not_found _ ↦ inr none
            | other ↦ inl other
          ]
        ],
        cached,
      )

abbrev pub clear_cache : Dict Text → Dict Text
clear_cache cached = []
