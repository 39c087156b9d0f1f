-- ===== src/Models/Event.antt =====
-- nse/models/trace_event.py: one event of `nft monitor trace`, or of the pipeline itself. A time
-- stamp is a number of clock ticks.
use network_sandbox_engine.Prelude.{ℕ, Text, Option, none, Bool, true, false}

-- The `Literal` of `TraceEvent.type`.
pub data EventType : Type 0 where
  hook match verdict error ping conntrack : EventType

pub record TraceEvent : Type 0 where
  pub type : EventType
  pub trace_id : Option Text
  pub family : Option Text
  pub table : Option Text
  pub chain : Option Text
  pub hook : Option Text
  pub rule_handle : Option ℕ
  pub rule_text : Option Text
  pub verdict : Option Text
  pub raw_message : Option Text
  pub timestamp : Option ℕ
  pub ct_proto : Option Text
  pub ct_state : Option Text
  pub ct_src : Option Text
  pub ct_dst : Option Text
  pub ct_sport : Option ℕ
  pub ct_dport : Option ℕ

-- The defaults of the fields, behind the one that is required.
abbrev pub blank : EventType → TraceEvent
blank kind = record {
  type = kind;
  trace_id = none;
  family = none;
  table = none;
  chain = none;
  hook = none;
  rule_handle = none;
  rule_text = none;
  verdict = none;
  raw_message = none;
  timestamp = none;
  ct_proto = none;
  ct_state = none;
  ct_src = none;
  ct_dst = none;
  ct_sport = none;
  ct_dport = none;
}

-- `evt.type == "error"`
abbrev pub is_error : TraceEvent → Bool
is_error evt = elim evt.type [ EventType.error ↦ true | _ ↦ false ]
