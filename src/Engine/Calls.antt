-- ===== src/Engine/Calls.antt =====
-- What a run of nse/core/pipeline.py is given, and the calls that it makes into the other components.
use network_sandbox_engine.Prelude.{
  ℕ, zero, suc, Text, Bool, true, false, Option, none, some, List, [], ◌∷◌, ◌⊎◌, inl, inr,
  if◌then◌else◌,
}
use network_sandbox_engine.Exceptions.{Exception}
use network_sandbox_engine.Models.Request.{PacketSpec, TestRequest}
use network_sandbox_engine.Naming.{NamespaceNames}
use network_sandbox_engine.Shell as Shell
use network_sandbox_engine.Shell.{System, World, Result, ok, failed, expired, raised, Call, spawn}
use network_sandbox_engine.Harvester.Monitor.{monitor_command}
use network_sandbox_engine.RuleEngine.{TempFiles, Checked, accepted, rejected}
use network_sandbox_engine.RuleEngine.Errors.{NftError}
use network_sandbox_engine.Injector.{Host, inject}
use network_sandbox_engine.Pipeline.Canary.{Injection}
use network_sandbox_engine.Pipeline.Env.{Loading, loaded, refused, load_raises}
use network_sandbox_engine.Pipeline.Machine.{
  Machine, Step, next, raises, rejects, returns, stuck, Action,
}
use network_sandbox_engine.Pipeline.Listeners.{Stopping, stop_listeners}
use network_sandbox_engine.Pipeline.Topology.{
  target_netns, peer_target, listener_netns, canary_spec, create_topology, teardown, listen_on,
}

-- What a run is given: the machine, the files and the packets of the system, and the text of the
-- errors of a RuleValidationError.
pub record Site : Type 0 where
  pub world : World
  pub host : Host
  pub tmp : TempFiles
  pub errors_text : List NftError → Text
  pub names : NamespaceNames
  -- what stopping each listener raises, in the order in which they were started
  pub listeners : ℕ → Stopping

-- `if pkt.dst_port`
abbrev pub has_port : Option ℕ → Bool
has_port none = false
has_port (some zero) = false
has_port (some (suc port)) = true

-- An action that also runs commands.
abbrev pub Effect {ℓ} : Type ℓ → Type ℓ
Effect A = Machine → System → Step A × Machine × System

infixl 5 ◌>>=◌ ◌>>◌
abbrev pub follow {ℓ κ} : {A : Type ℓ} {B : Type κ} → Step A → (A → Effect B) → Effect B
follow (next a) f m s = f a m s
follow (raises e) f m s = (raises e, m, s)
follow (rejects t) f m s = (rejects t, m, s)
follow returns f m s = (returns, m, s)
follow stuck f m s = (stuck, m, s)

abbrev pub ◌>>=◌ {ℓ κ} : {X : Type ℓ} {Y : Type κ} → Effect X → (X → Effect Y) → Effect Y
◌>>=◌ a f m s = let (r, m', s') = a m s in follow r f m' s'

abbrev pub ◌>>◌ {ℓ} : {B : Type ℓ} → Effect (Unit {0}) → Effect B → Effect B
a >> b = a >>= λ _. b

-- an action of the pipeline itself
abbrev pub act {ℓ} : {A : Type ℓ} → Action A → Effect A
act a m s = let (r, m') = a m in (r, m', s)

module _ (site : Site) where
  -- the exception that leaves a call
  abbrev pub exception_of : {X : Type 0} → Result X → Option Exception
  exception_of (ok x) = none
  exception_of (failed cmd status err) =
      some (Exception.called_process_error (site.host.failed_text cmd status))
  exception_of (expired cmd) = some (Exception.timeout_expired (site.host.expired_text cmd))
  exception_of (raised e) = some e

  abbrev pub proceed : Option Exception → Step (Unit {0})
  proceed none = next tt
  proceed (some e) = raises e

  -- a call in the executor
  abbrev pub call : Call (Unit {0}) → Effect (Unit {0})
  call c m s = let (r, s') = c s in (proceed (exception_of r), m, s')

  -- how loading the rules ends
  abbrev pub loading_of : Result Checked → Loading
  loading_of (ok accepted) = loaded
  loading_of (ok (rejected errors)) = refused (site.errors_text errors)
  loading_of (failed cmd status err) =
      load_raises (Exception.called_process_error (site.host.failed_text cmd status))
  loading_of (expired cmd) = load_raises (Exception.timeout_expired (site.host.expired_text cmd))
  loading_of (raised e) = load_raises e

  abbrev pub table_of : Result (List Text) → Exception ⊎ List Text
  table_of (ok lines) = inr lines
  table_of (failed cmd status err) =
      inl (Exception.called_process_error (site.host.failed_text cmd status))
  table_of (expired cmd) = inl (Exception.timeout_expired (site.host.expired_text cmd))
  table_of (raised e) = inl e

  -- `injector.inject`, for the topology of the request; the host's end is in the root namespace
  abbrev pub send : TestRequest → PacketSpec → Call (Unit {0})
  send req p =
      inject site.world site.host p (target_netns req.topology site.names) site.names.veth_host
        (peer_target req.topology site.names) none

  -- The monitor's command, and its start.
  unfoldable pub launch_monitor : Text → Call (Unit {0})
  launch_monitor ns = Shell.◌>>=◌ (monitor_command site.world ns) (spawn site.world)

  -- the packet of the canaries
  abbrev pub canary : TestRequest → PacketSpec → PacketSpec
  canary req p = canary_spec p.dst_ip p.src_ip

  -- the outcome of a call, put into the record of an injection
  abbrev pub injection : Injection → Result (Unit {0}) → Injection
  injection i r = record i { raised = exception_of r }

  -- `len(listeners)`, where the listeners of the packets are started from the system
  unfoldable pub listening : TestRequest → List PacketSpec → System → ℕ
  listening req [] s = 0
  listening req (p ∷ ps) s =
      let (r, s') =
        listen_on site.world site.host.executable (listener_netns req.topology site.names)
          p.protocol p.dst_port s in
      let rest = listening req ps s' in
      elim (exception_of r) [ none ↦ (if has_port p.dst_port then suc rest else rest) | some e ↦ 0 ]

  -- `len(listeners)` behind step 2
  unfoldable pub listeners : TestRequest → System → ℕ
  listeners req s =
      let (r, s') = create_topology site.world req.topology site.names s in
      let n = listening req req.packets s' in elim (exception_of r) [ none ↦ n | some e ↦ 0 ]

  -- the loop over the listeners, as a call that touches nothing of the engine
  abbrev pub stopped : Option Exception → Call (Unit {0})
  stopped none s = (ok tt, s)
  stopped (some e) s = (raised e, s)

  -- the `finally` block
  unfoldable pub clean_up : TestRequest → ℕ → Call (Unit {0})
  clean_up req n =
      Shell.◌>>◌ (stopped (stop_listeners site.listeners n 0))
        (teardown site.world req.topology site.names)
