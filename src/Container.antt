-- ===== src/Container.antt =====
-- `is_in_container` of nse/core/utils.py, and the constructor of the controller that asks it. The
-- environment and the files are arguments.
use network_sandbox_engine.Prelude.{
  Text, codes, given, any, has_substring, ◌||◌, Bool, true, false, Option, none, some, List, [],
  ◌∷◌, ◌⊎◌, inl, inr, if◌then◌else◌,
}
use network_sandbox_engine.Exceptions.{Exception, is_os_error}
use network_sandbox_engine.Shell.{System, World}
use network_sandbox_engine.Controller.Sweep.{startup_sweep}

pub record Surroundings : Type 0 where
  -- the variables CONTAINER and container
  pub upper_variable : Option Text
  pub lower_variable : Option Text
  pub exists : Text → Bool
  -- what opening and reading a file gives or raises
  pub read : Text → Exception ⊎ Text

abbrev is_set : Option Text → Bool
is_set o = elim (given o) [ none ↦ false | some t ↦ true ]

-- The texts that stand for a container in a file.
abbrev hinted : List Text → Text → Bool
hinted hints content = any (λ h. has_substring content h) hints

-- One `with contextlib.suppress(OSError)`: whether the file is there and holds a hint.
unfoldable pub hint_in : Surroundings → Text → List Text → Exception ⊎ Bool
hint_in m path hints =
    if m.exists path
    then elim (m.read path) as (λ _. Exception ⊎ Bool) [
      | inl e ↦ if is_os_error e then inr false else inl e
      | inr content ↦ inr (hinted hints content)
    ]
    else inr false

abbrev or_else : Exception ⊎ Bool → Exception ⊎ Bool → Exception ⊎ Bool
or_else (inl e) rest = inl e
or_else (inr true) rest = inr true
or_else (inr false) rest = rest

unfoldable pub is_in_container : Surroundings → Exception ⊎ Bool
is_in_container m =
    if is_set m.upper_variable || is_set m.lower_variable || m.exists (codes "/.dockerenv")
    then inr true
    else or_else (hint_in m (codes "/proc/1/environ") (codes "container=" ∷ codes "docker" ∷ [])) (
        hint_in m (codes "/proc/1/cgroup")
          (codes "docker" ∷ codes "kubepods" ∷ codes "containerd" ∷ codes "lxc" ∷ []))

-- `use_nsenter`, as the constructor of the controller sets it
unfoldable pub chosen_nsenter : Surroundings → Option Bool → Exception ⊎ Bool
chosen_nsenter m none = is_in_container m
chosen_nsenter m (some b) = inr b

abbrev fresh : System
fresh = record { ran = []; active_ns = []; temp_files = [] }

-- `NetnsController.__init__`, on a machine `w` whose own setting is not looked at
unfoldable pub new_controller : Surroundings → World → Option Bool → Exception ⊎ (World × System)
new_controller m w use_nsenter = elim (chosen_nsenter m use_nsenter) [
  | inl e ↦ inl e
  | inr b ↦ let w = record w { use_nsenter = b } in inr (w, (startup_sweep w fresh).1)
]
