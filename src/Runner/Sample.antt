-- ===== src/Runner/Sample.antt =====
-- A suite's case with one packet, for tests.
use network_sandbox_engine.Prelude.{Text, codes, contains, some, none, [], ◌∷◌}
use network_sandbox_engine.Prelude.Int.{pos}
use network_sandbox_engine.Models.Request.{TestRequest, TopologyType, Protocol}
use network_sandbox_engine.Runner.Suite.Value.{
  text, int, str, sequence, mapping, nil, item, Fields, end, field,
}
use network_sandbox_engine.Runner.Suite.Build.{Conversions}

abbrev pub conversions : Conversions
conversions = record {
  repr = λ _. codes "?";
  as_str = λ v. elim v [ str t ↦ some t | _ ↦ none ];
  as_int = λ v. elim v [ int n ↦ some n | _ ↦ none ];
  as_str_list =
      λ v. elim v [ sequence items ↦ elim items [ nil ↦ some [] | item _ _ ↦ none ] | _ ↦ none ];
  is_ip = λ t. contains t (codes "10.0.0.1" ∷ codes "10.0.0.2" ∷ []);
}

-- A case with one packet, with the verdict that it expects.
abbrev pub case_of : Text → Fields
case_of verdict =
    field (text (codes "packets"))
      (sequence (
        item
          (mapping (
            field (text (codes "dst_port")) (int (pos 80))
              (field (text (codes "expected_verdict")) (str verdict) end)))
          nil))
      (field (text (codes "rules")) (str (codes "table ip filter {}")) end)

abbrev pub web_request : TestRequest
web_request = record {
  rules = codes "table ip filter {}";
  packets =
      record {
        protocol = Protocol.tcp;
        src_ip = codes "10.0.0.1";
        dst_ip = codes "10.0.0.2";
        src_port = none;
        dst_port = some 80;
        tcp_flags = [];
      }
      ∷ [];
  topology = TopologyType.simple;
}
