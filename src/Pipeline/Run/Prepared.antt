-- ===== src/Pipeline/Run/Prepared.antt =====
-- Steps 1 to 4 and step 6 of `run_test_pipeline` of nse/core/pipeline.py, read backwards: how their calls
-- ended when the step went on.
use network_sandbox_engine.Prelude.{Option, none, some, List, [], ◌∷◌, ◌≡◌, ◌≢◌, refl}
use network_sandbox_engine.Models.Request.{TestRequest, PacketSpec}
use network_sandbox_engine.Exceptions.{Exception}
use network_sandbox_engine.Pipeline.Env.{Env, Loading, loaded, refused, load_raises}
use network_sandbox_engine.Pipeline.Canary.{Injection}
use network_sandbox_engine.Pipeline.Stages.{
  prepare, start_listeners, load_rules, start_monitor, first_packet, inject_packet,
}
use network_sandbox_engine.Pipeline.Machine.{Machine, next, attempt}
use network_sandbox_engine.Pipeline.Run.Contract.{then-next}

attempt-next : (o : Option Exception) (m m' : Machine) → attempt o m ≡ (next tt, m') → o ≡ none
attempt-next none m m' h = refl
attempt-next (some e) m m' h = absurd (cc)

load_rules-next : (l : Loading) (m m' : Machine) → load_rules l m ≡ (next tt, m') → l ≡ loaded
unfolding load_rules
load_rules-next loaded m m' h = refl
load_rules-next (refused errors) m m' h = absurd (cc)
load_rules-next (load_raises e) m m' h = absurd (cc)

first_packet-next :
    (ps : List PacketSpec) (m m' : Machine) → first_packet ps m ≡ (next tt, m') → ps ≢ []
unfolding first_packet
first_packet-next [] m m' h e = absurd (cc)
first_packet-next (p ∷ ps) m m' h e = absurd (cc)

module _ (env : Env) where
  -- what the calls of steps 1 to 4 gave
  pub prepare-next :
      (req : TestRequest) (m m' : Machine)
      → prepare env req m ≡ (next tt, m')
      → (env.topology ≡ none) × (env.load ≡ loaded) × (req.packets ≢ [])
  unfolding prepare
  prepare-next req m m' h =
      let (p₁, h) = then-next (attempt env.topology) _ m h in
      let (_, h) = then-next (start_listeners env 0 req.packets) _ _ h in
      let (p₃, h) = then-next (load_rules env.load) _ _ h in
      let (_, h) = then-next (start_monitor env) _ _ h in
      (attempt-next _ _ _ p₁, load_rules-next _ _ _ p₃, first_packet-next _ _ _ h)

  -- how the injection of a packet ended
  pub inject_packet-next :
      (i : Injection) (m m' : Machine) → inject_packet env i m ≡ (next tt, m') → i.raised ≡ none
  unfolding inject_packet
  inject_packet-next i m m' h = attempt-next i.raised _ m' h
