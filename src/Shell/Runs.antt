-- ===== src/Shell/Runs.antt =====
-- What every command of a call has in common.
use network_sandbox_engine.Prelude.{
  Text, codes, Bool, true, false, List, [], ◌∷◌, ◌++◌, ◌≡◌, refl, sym, ◌∙◌, ap, subst, append-nil,
  append_assoc, All, inl, inr, if◌then◌else◌, ◌==◌,
}
use network_sandbox_engine.Exceptions.{Exception}
use network_sandbox_engine.Paths.{resolve_once}
use network_sandbox_engine.Paths.Search.{Trusted, resolve_once-Trusted}
use network_sandbox_engine.Paths.Cache.{Resolved-cases}
use network_sandbox_engine.Shell.{
  Argv, System, World, Result, ok, failed, expired, raised, Call, follow, ◌>>=◌, ◌>>◌, pure, raise,
  ignore_errors, suppress, tolerate, finally, find, run_unchecked, run, exec_prefix, in_root,
  in_netns,
}

pub ok-injective : {X : Type 0} {a b : X} → ok a ≡ ok b → a ≡ b
ok-injective e = cc

abbrev pub Always : {X : Type 0} → X → Type 0
Always x = Unit

module _ (Q : Argv → Type 0) where
  -- The commands between two states, each of which meets `Q`.
  pub record Adds (s s' : System) : Type 0 where
    pub added : List Argv
    pub appended : s'.ran ≡ s.ran ++ added
    pub each : All Q added

  -- A call whose commands meet `Q`, and whose value meets `P`.
  pub record Runs {X : Type 0} (P : X → Type 0) (a : Call X) : Type 0 where
    pub at : (s : System) → Adds s (a s).1
    pub value : (s : System) (x : X) → (a s).0 ≡ ok x → P x

module _ (w : World) where
  -- A program that was resolved.
  abbrev pub IsProgram : Text → Type 0
  IsProgram path = Trusted w.fs path

  -- What `exec_prefix` puts before a command: it runs the rest in the namespace `name`.
  pub data IsPrefix (name : Text) : Argv → Type 0 where
    by_nsenter :
        {p : Text}
        → IsProgram p
        → IsPrefix name (p ∷ (codes "--net=/var/run/netns/" ++ name) ∷ codes "--" ∷ [])
    by_ip : {p : Text} → IsProgram p → IsPrefix name (p ∷ codes "netns" ∷ codes "exec" ∷ name ∷ [])

All-append : (Q : Argv → Type 0) (xs ys : List Argv) → All Q xs → All Q ys → All Q (xs ++ ys)
All-append Q [] ys a b = b
All-append Q (x ∷ xs) ys (q, a) b = (q, All-append Q xs ys a b)

module _ {Q : Argv → Type 0} where
  pub Adds-same : (s s' : System) → s'.ran ≡ s.ran → Adds Q s s'
  Adds-same s s' e = record { added = []; appended = e ∙ sym (append-nil s.ran); each = tt }

  pub Adds-trans : {a b c : System} → Adds Q a b → Adds Q b c → Adds Q a c
  Adds-trans {a} p q = record {
    added = p.added ++ q.added;
    appended = q.appended ∙ ap (λ l. l ++ q.added) p.appended ∙ append_assoc a.ran p.added q.added;
    each = All-append Q p.added q.added p.each q.each;
  }

  pub Runs-pure : {X : Type 0} {P : X → Type 0} (x : X) → P x → Runs Q P (pure x)
  Runs-pure {P} x p = record {
    at = λ s. Adds-same s s refl;
    value = λ s y e. subst P (ok-injective e) p;
  }

  pub Runs-if :
      {X : Type 0} {P : X → Type 0} (b : Bool) (a a' : Call X)
      → Runs Q P a
      → Runs Q P a'
      → Runs Q P (if b then a else a')
  Runs-if true a a' p q = p
  Runs-if false a a' p q = q

  -- The test may be used in the branch that it guards.
  pub Runs-when :
      {X : Type 0} {P : X → Type 0} (b : Bool) (a a' : Call X)
      → (b ≡ true → Runs Q P a)
      → Runs Q P a'
      → Runs Q P (if b then a else a')
  Runs-when true a a' p q = p refl
  Runs-when false a a' p q = q

  pub Runs-raise : {X : Type 0} {P : X → Type 0} (e : Exception) → Runs Q P (raise e)
  Runs-raise e = record { at = λ s. Adds-same s s refl; value = λ s y h. absurd (cc) }

  follow-Adds :
      {X Y : Type 0} {P : X → Type 0} {R : Y → Type 0} (r : Result X) (f : X → Call Y) (s : System)
      → ((x : X) → r ≡ ok x → P x)
      → ((x : X) → P x → Runs Q R (f x))
      → Adds Q s (follow r f s).1
  follow-Adds (ok x) f s p k = (k x (p x refl)).at s
  follow-Adds (failed _ _ _) f s p k = Adds-same s s refl
  follow-Adds (expired _) f s p k = Adds-same s s refl
  follow-Adds (raised _) f s p k = Adds-same s s refl

  follow-value :
      {X Y : Type 0} {P : X → Type 0} {R : Y → Type 0} (r : Result X) (f : X → Call Y) (s : System)
      → ((x : X) → r ≡ ok x → P x)
      → ((x : X) → P x → Runs Q R (f x))
      → (y : Y) → (follow r f s).0 ≡ ok y
      → R y
  follow-value (ok x) f s p k y e = (k x (p x refl)).value s y e
  follow-value (failed _ _ _) f s p k y e = absurd (cc)
  follow-value (expired _) f s p k y e = absurd (cc)
  follow-value (raised _) f s p k y e = absurd (cc)

  pub Runs-bind :
      {X Y : Type 0} {P : X → Type 0} {R : Y → Type 0} (a : Call X) (f : X → Call Y)
      → Runs Q P a
      → ((x : X) → P x → Runs Q R (f x))
      → Runs Q R (a >>= f)
  Runs-bind a f p k = record {
    at = λ s. Adds-trans (p.at s) (follow-Adds (a s).0 f (a s).1 (p.value s) k);
    value = λ s. follow-value (a s).0 f (a s).1 (p.value s) k;
  }

  pub Runs-then :
      {Y : Type 0} {R : Y → Type 0} (a : Call (Unit {0})) (b : Call Y)
      → Runs Q Always a
      → Runs Q R b
      → Runs Q R (a >> b)
  Runs-then a b p k = Runs-bind {P = Always} a (λ _. b) p (λ _ _. k)

  -- A call whose commands are those of another one.
  pub Runs-at :
      {X : Type 0} {P : X → Type 0} (a b : Call X)
      → Runs Q P a
      → ((s : System) → (b s).1.ran ≡ (a s).1.ran)
      → ((x : X) → P x)
      → Runs Q P b
  Runs-at a b p e q = record {
    at = λ s. Adds-trans (p.at s) (Adds-same _ _ (e s));
    value = λ s x h. q x;
  }

  pub Runs-ignore_errors : (a : Call (Unit {0})) → Runs Q Always a → Runs Q Always (ignore_errors a)
  Runs-ignore_errors a p = Runs-at a (ignore_errors a) p (λ s. refl) (λ x. tt)

  pub Runs-suppress : (a : Call (Unit {0})) → Runs Q Always a → Runs Q Always (suppress a)
  Runs-suppress a p = Runs-at a (suppress a) p (λ s. refl) (λ x. tt)

  pub Runs-tolerate : (a : Call (Unit {0})) → Runs Q Always a → Runs Q Always (tolerate a)
  Runs-tolerate a p = Runs-at a (tolerate a) p (λ s. refl) (λ x. tt)

  pub Runs-finally :
      {X : Type 0} (a : Call X) (c : Call (Unit {0}))
      → Runs Q Always a
      → Runs Q Always c
      → Runs Q Always (finally a c)
  Runs-finally a c p q = record {
    at = λ s. Adds-trans (p.at s) (q.at (a s).1);
    value = λ s x h. tt;
  }

  module _ (w : World) where
    pub Runs-find : (binary : Text) → Runs Q (IsProgram w) (find w binary)
    unfolding find
    Runs-find binary = record {
      at = λ s. elim (Resolved-cases w.fs (resolve_once w.fs binary)) [
        | inl (e, q) ↦ rw (q, find) (Adds-same s s refl)
        | inr (path, q) ↦ rw (q, find) (Adds-same s s refl)
      ];
      value = λ s x h. elim (Resolved-cases w.fs (resolve_once w.fs binary)) [
        | inl (e, q) ↦ absurd (cc ((rw (q, find) at h)))
        | inr (path, q) ↦
            resolve_once-Trusted w.fs binary x (q ∙ ap inr (ok-injective (rw (q, find) at h)))
      ];
    }

    pub Runs-unchecked : (cmd : Argv) → Q cmd → Runs Q Always (run_unchecked w cmd)
    unfolding run_unchecked
    Runs-unchecked cmd q = record {
      at = λ s. record { added = cmd ∷ []; appended = refl; each = (q, tt) };
      value = λ s x h. tt;
    }

    pub Runs-run : (cmd : Argv) → Q cmd → Runs Q Always (run w cmd)
    unfolding run
    Runs-run cmd q =
        Runs-bind {P = Always} (run_unchecked w cmd) _ (Runs-unchecked cmd q) (λ done _.
          Runs-if (done.returncode == 0) _ _ (Runs-pure tt tt)
            (record { at = λ s. Adds-same s s refl; value = λ s x h. tt }))

    pub Runs-exec_prefix : (name : Text) → Runs Q (IsPrefix w name) (exec_prefix w name)
    unfolding exec_prefix
    Runs-exec_prefix name =
        Runs-if w.use_nsenter _ _
          (Runs-bind (find w (codes "nsenter")) _ (Runs-find (codes "nsenter"))
            (λ p t. Runs-pure _ (by_nsenter t)))
          (Runs-bind (find w (codes "ip")) _ (Runs-find (codes "ip"))
            (λ p t. Runs-pure _ (by_ip t)))

    pub Runs-in_root :
        (binary : Text) (args : List Text)
        → ((p : Text) → IsProgram w p → Q (p ∷ args))
        → Runs Q Always (in_root w binary args)
    unfolding in_root
    Runs-in_root binary args q =
        Runs-bind (find w binary) _ (Runs-find binary) (λ p t. Runs-run (p ∷ args) (q p t))

    pub Runs-in_netns :
        (name binary : Text) (args : List Text)
        → ((prefix : Argv) (p : Text)
            → IsPrefix w name prefix
            → IsProgram w p
            → Q (prefix ++ p ∷ args))
        → Runs Q Always (in_netns w name binary args)
    unfolding in_netns
    Runs-in_netns name binary args q = Runs-bind (find w binary) _ (Runs-find binary) (λ p t.
        Runs-bind (exec_prefix w name) _ (Runs-exec_prefix name)
          (λ prefix u. Runs-run (prefix ++ p ∷ args) (q prefix p u t)))
