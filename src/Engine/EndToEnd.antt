-- ===== src/Engine/EndToEnd.antt =====
-- What a run that reports no error has done on the machine.
use network_sandbox_engine.Prelude.{
  ℕ, suc, Text, false, any, contains, none, some, List, [], ◌∷◌, ◌≡◌, ◌≢◌, refl, sym, ◌∙◌, ap,
}
use network_sandbox_engine.Models.{TraceEvent, is_error}
use network_sandbox_engine.Models.Request.{PacketSpec, TestRequest}
use network_sandbox_engine.Shell.{System, Result, ok, failed, expired, raised}
use network_sandbox_engine.RuleEngine.{Checked, accepted, rejected, full_ruleset}
use network_sandbox_engine.RuleEngine.Loads.{Loaded, load-Loaded}
use network_sandbox_engine.Injector.Lookup.{HasMac}
use network_sandbox_engine.Injector.Sent.{Departed, inject-Departed}
use network_sandbox_engine.Pipeline.Env.{Env, loaded}
use network_sandbox_engine.Prelude.{All}
use network_sandbox_engine.Pipeline.Machine.{Machine, next}
use network_sandbox_engine.Pipeline.Stages.{inject_packet, inject_packets}
use network_sandbox_engine.Pipeline.Topology.{target_netns, peer_target, create_topology}
use network_sandbox_engine.Pipeline.Run.{returned}
use network_sandbox_engine.Pipeline.Run.Contract.{Measured, then-next}
use network_sandbox_engine.Pipeline.Run.Outcome.{returned-Measured}
use network_sandbox_engine.Pipeline.Run.Prepared.{prepare-next, inject_packet-next}
use network_sandbox_engine.Engine.Calls.{Site, exception_of, loading_of, injection, send}
use network_sandbox_engine.Engine.{run_test_pipeline}
use network_sandbox_engine.Engine.Outcomes.{env_of, noted, s₂}
use network_sandbox_engine.Engine.Simulates.{Agrees, Agrees-head, Agrees-tail}
use network_sandbox_engine.Engine.Refines.{run_test_pipeline-refines}
use network_sandbox_engine.Engine.Stagewise.{zero_plus}

module _ (site : Site) where
  exception_of-ok : {X : Type 0} (r : Result X) → exception_of site r ≡ none → (x : X) × (r ≡ ok x)
  exception_of-ok (ok x) h = (x, refl)
  exception_of-ok (failed cmd status err) h = absurd (cc)
  exception_of-ok (expired cmd) h = absurd (cc)
  exception_of-ok (raised e) h = absurd (cc)

  loading_of-accepted : (r : Result Checked) → loading_of site r ≡ loaded → r ≡ ok accepted
  loading_of-accepted (ok accepted) h = refl
  loading_of-accepted (ok (rejected errors)) h = absurd (cc)
  loading_of-accepted (failed cmd status err) h = absurd (cc)
  loading_of-accepted (expired cmd) h = absurd (cc)
  loading_of-accepted (raised e) h = absurd (cc)

  module _ (req : TestRequest) where
    abbrev target : Text
    target = target_netns req.topology site.names

    abbrev peer : Text
    peer = peer_target req.topology site.names

    -- A packet of the request has left between the two interfaces, if it names a destination.
    pub Sent : PacketSpec → Type 0
    Sent p =
        p.dst_ip ≢ []
        → (host_mac : Text) × (peer_mac : Text) × HasMac site.world site.names.veth_host none
            host_mac
          × HasMac site.world peer (some target) peer_mac
          × Departed site.world site.host p target site.names.veth_host peer host_mac peer_mac

    send-Sent :
        (p : PacketSpec) (s : System) → exception_of site (send site req p s).0 ≡ none → Sent p
    unfolding Sent
    send-Sent p s h d =
        let (x, e) = exception_of-ok (send site req p s).0 h in
        inject-Departed site.world site.host p target site.names.veth_host peer none s d e

    injected-Sent :
        (env env' : Env) (ps : List PacketSpec) (k : ℕ) (m m' : Machine) (s : System)
        → Agrees
            (send site req)
            (λ k r. injection site (env.packet k) r)
            (env.packet 0)
            env'.packet
            ps
            s
            k
        → inject_packets env' k ps m ≡ (next tt, m')
        → All Sent ps
    unfolding inject_packets
    injected-Sent env env' [] k m m' s a h = tt
    injected-Sent env env' (p ∷ ps) k m m' s a h =
        let (q, h) = then-next (inject_packet env' (env'.packet k)) _ m h in
        (
          send-Sent p s (
              sym (ap (λ i. i.raised) (Agrees-head _ _ _ env'.packet p ps s k a))
              ∙ inject_packet-next env' (env'.packet k) _ _ q),
          injected-Sent env env' ps (suc k) _ m' _ (Agrees-tail _ _ _ env'.packet p ps s k a) h,
        )

    -- What a run has done that reports no error: the topology was created, the rules behind the tracing
    -- table were loaded in the target's namespace, each packet has left, and what was seen is measured.
    pub record Exercised (env : Env) (m : Machine) (s : System) : Type 0 where
      pub built : (create_topology site.world req.topology site.names s).0 ≡ ok tt
      pub loads : (path : Text) × Loaded site.world (full_ruleset req.rules) target path
      pub sent : All Sent req.packets
      pub measured : Measured (env_of site env req m s) req m

    Measured-Exercised :
        (env : Env) (m : Machine) (s : System)
        → Measured (env_of site env req m s) req m
        → Exercised env m s
    Measured-Exercised env m s k =
        let (b, l, n) = prepare-next (env_of site env req m s) req m k.prepared k.did_prepare in
        record {
          built = (exception_of-ok (create_topology site.world req.topology site.names s).0 b).1;
          loads =
              (load-Loaded site.world site.tmp req.rules target (s₂ site env req m s)
                (loading_of-accepted _ l)).1;
          sent =
              injected-Sent env (env_of site env req m s) req.packets 0 k.noted k.injected
                (noted site env req m s).2 (zero_plus _) k.injected_all;
          measured = k;
        }

    -- A run that returns a list without an error event, and whose own id is none of a canary, has created its
    -- topology without an exception, has loaded its rules, behind the tracing table, in the target's namespace
    -- with an nft that exited with 0, has sent each packet of the request that names a destination between
    -- the two interfaces, and has measured what it reports: both canaries were seen, every packet was
    -- injected, the conntrack table was reported, and the closed harvester is healthy.
    pub run_test_pipeline-Exercised :
        (env : Env) (m : Machine) (s : System) (events : List TraceEvent)
        → let run = run_test_pipeline site env req m s in
          run.0 ≡ returned events
          → contains run.1.test_id run.1.canary_trace_ids ≡ false
          → any is_error events ≡ false
          → Exercised env m s
    run_test_pipeline-Exercised env m s events h c n =
        let run = run_test_pipeline site env req m s in
        Measured-Exercised env m s (
          returned-Measured (env_of site env req m s) req m run.1 events
            (sym (run_test_pipeline-refines site env req m s) ∙ ap (λ e. (e, run.1)) h) c n)
