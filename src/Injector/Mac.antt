-- ===== src/Injector/Mac.antt =====
-- The pattern of `_get_mac_address` of nse/core/scapy_injector.py.
use network_sandbox_engine.Prelude.{
  ℕ, Text, codes, after, run_of, is_space, is_digit, take, all, length, leb, ◌&&◌, ◌||◌, ◌==◌, Bool,
  Option, none, some, [], ◌∷◌, if◌then◌else◌, ◌>>=◌,
}

-- the class `[0-9a-fA-F:]`
abbrev pub is_mac_code : ℕ → Bool
is_mac_code c = is_digit c || (leb 97 c && leb c 102) || (leb 65 c && leb c 70) || c == b':'

abbrev mac_group : Text → Option Text
mac_group t =
    if length (take 17 t) == 17 && all is_mac_code (take 17 t) then some (take 17 t) else none

-- the pattern at the start of a text
unfoldable pub mac_here : Text → Option Text
mac_here t = do t ← after (codes "link/ether") t; (_, t) ← run_of is_space t; mac_group t

-- `re.search`
unfoldable pub search_mac : Text → Option Text
search_mac [] = none
search_mac (c ∷ t) =
    let rest = search_mac t in elim (mac_here (c ∷ t)) [ some mac ↦ some mac | none ↦ rest ]
