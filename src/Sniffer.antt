-- ===== src/Sniffer.antt =====
-- `PCAPAsserter` of nse/core/sniffer.py. Capturing is scapy's, and an argument.
use network_sandbox_engine.Prelude.{
  Text, codes, given, decimal, Bool, Option, none, some, List, [], ◌++◌, ◌⊎◌, inl, inr,
  if◌then◌else◌,
}
use network_sandbox_engine.Exceptions.{Exception}

abbrev default_filter : Text
default_filter =
    codes "not arp and not (icmp6 and icmp6[icmp6type] >= "
    ++ (decimal 133 ++ (codes " and icmp6[icmp6type] <= " ++ (decimal 137 ++ codes ")")))

-- The filter that a sniffer is given: the caller's alone, both, or the default.
unfoldable pub filter_of : Option Text → Bool → Text
filter_of filter replace_default_filter = elim (given filter) [
  | none ↦ default_filter
  | some f ↦
      if replace_default_filter
      then f
      else codes "(" ++ (default_filter ++ (codes ") and (" ++ (f ++ codes ")")))
]

-- `stop`: the packets that scapy gives, or none
unfoldable pub captured {ℓ} : {P : Type ℓ} → Option (List P) → List P
captured none = []
captured (some packets) = packets

pub record PcapAsserter : Type 0 where
  pub iface : Text
  pub filter : Text

-- `__init__`
abbrev pub new_asserter : Text → Option Text → Bool → PcapAsserter
new_asserter iface filter replace_default_filter = record {
  iface = iface;
  filter = filter_of filter replace_default_filter;
}

-- scapy's AsyncSniffer for an interface and a filter: what starting and stopping it raises or returns
pub record AsyncSniffer (S P : Type 0) : Type 0 where
  pub start : S → (Exception ⊎ Unit {0}) × S
  pub stop : S → (Exception ⊎ Option (List P)) × S

module _ {S P : Type 0} (scapy : Text → Text → AsyncSniffer S P) where
  unfoldable pub start : PcapAsserter → S → (Exception ⊎ Unit {0}) × S
  start a s = (scapy a.iface a.filter).start s

  abbrev packets_of : Exception ⊎ Option (List P) → Exception ⊎ List P
  packets_of (inl e) = inl e
  packets_of (inr packets) = inr (captured packets)

  unfoldable pub stop : PcapAsserter → S → (Exception ⊎ List P) × S
  stop a s = let (r, s) = (scapy a.iface a.filter).stop s in (packets_of r, s)
