-- ===== src/Pipeline/Conntrack.antt =====
-- `parse_conntrack_line` and the loop of `read_conntrack_table` of nse/core/pipeline.py.
use network_sandbox_engine.Prelude.{
  Text, codes, text_eq, contains, given, upper, strip, split_words, second_part, starts_with, Bool,
  true, false, not, ◌&&◌, Option, none, some, List, [], ◌∷◌, ◌++◌, take, ◌⊎◌, inl, inr,
  if◌then◌else◌,
}
use network_sandbox_engine.Prelude.Int.{ℤ, is_nonzero, int_of, show_int}

pub record Entry : Type 0 where
  pub proto : Text
  pub state : Text
  pub src : Text
  pub dst : Text
  pub sport : Option ℤ
  pub dport : Option ℤ

-- What a call returns: nothing, an entry, or the ValueError of `int`, with its argument.
pub data Parsed : Type 0 where
  skipped : Parsed
  entry : Entry → Parsed
  bad_number : Text → Parsed

abbrev tcp_states : List Text
tcp_states =
    codes "ESTABLISHED"
    ∷ codes "SYN_SENT"
    ∷ codes "SYN_RECV"
    ∷ codes "FIN_WAIT"
    ∷ codes "TIME_WAIT"
    ∷ codes "CLOSE"
    ∷ codes "CLOSE_WAIT"
    ∷ codes "LAST_ACK"
    ∷ []

-- the loop over `parts[4:7]`, and the default behind it
first_state : List Text → Text
first_state [] = codes "UNKNOWN"
first_state (p ∷ ps) = if contains p tcp_states then p else first_state ps

state_of : Text → List Text → Text
unfolding first_state
state_of proto ps = if text_eq proto (codes "tcp") then first_state ps else codes "ESTABLISHED"

-- The local variables of the second loop.
pub record Found : Type 0 where
  pub src : Option Text
  pub dst : Option Text
  pub sport : Option ℤ
  pub dport : Option ℤ

-- Python's `not x` of an optional string, and of an optional number
abbrev is_unset : Option Text → Bool
is_unset o = elim (given o) [ none ↦ true | some _ ↦ false ]

abbrev is_unset_port : Option ℤ → Bool
is_unset_port none = true
is_unset_port (some n) = not (is_nonzero n)

abbrev value_of : Text → Text
value_of = second_part b'='

-- One round of the loop; a ValueError leaves it.
scan_part : Text → Found → Text ⊎ Found
scan_part p f =
    if starts_with p (codes "src=") && is_unset f.src
    then inr (record f { src = some (value_of p) })
    else if starts_with p (codes "dst=") && is_unset f.dst
    then inr (record f { dst = some (value_of p) })
    else if starts_with p (codes "sport=") && is_unset_port f.sport
    then (elim (int_of (value_of p)) [
      | none ↦ inl (value_of p)
      | some n ↦ inr (record f { sport = some n })
    ])
    else if starts_with p (codes "dport=") && is_unset_port f.dport
    then (elim (int_of (value_of p)) [
      | none ↦ inl (value_of p)
      | some n ↦ inr (record f { dport = some n })
    ])
    else inr f

scan_parts : List Text → Found → Text ⊎ Found
unfolding scan_part
scan_parts [] f = inr f
scan_parts (p ∷ ps) f = elim (scan_part p f) [ inl bad ↦ inl bad | inr f ↦ scan_parts ps f ]

-- `if src and dst`
entry_of : Text → Text → Found → Parsed
entry_of proto state f = elim (given f.src) [
  | none ↦ skipped
  | some src ↦ elim (given f.dst) [
    | none ↦ skipped
    | some dst ↦ entry (record {
      proto = upper proto;
      state = state;
      src = src;
      dst = dst;
      sport = f.sport;
      dport = f.dport;
    })
  ]
]

-- on the words of the line: fewer than six are no entry
unfoldable pub parse_words : List Text → Parsed
unfolding entry_of scan_parts state_of
parse_words (p0 ∷ p1 ∷ proto ∷ p3 ∷ p4 ∷ p5 ∷ more) =
    elim (scan_parts (p0 ∷ p1 ∷ proto ∷ p3 ∷ p4 ∷ p5 ∷ more)
      (record { src = none; dst = none; sport = none; dport = none })) [
        | inl bad ↦ bad_number bad
        | inr f ↦ entry_of proto (state_of proto (p4 ∷ p5 ∷ take 1 more)) f
      ]
parse_words _ = skipped

unfoldable pub parse_conntrack_line : Text → Parsed
parse_conntrack_line line = parse_words (split_words (strip line))

-- The loop over the lines of the table; `inl` is the argument of an `int` that raised.
unfoldable pub table_entries : List Text → Text ⊎ List Entry
table_entries [] = inr []
table_entries (line ∷ lines) =
    let rest = table_entries lines in
    elim (strip line) [
      | [] ↦ rest
      | _ ∷ _ ↦ elim (parse_conntrack_line line) [
        | bad_number bad ↦ inl bad
        | skipped ↦ rest
        | entry e ↦ elim rest [ inl bad ↦ inl bad | inr es ↦ inr (e ∷ es) ]
      ]
    ]

abbrev show_port : Option ℤ → Text
show_port none = codes "None"
show_port (some n) = show_int n

-- The `rule_text` of a conntrack event.
unfoldable pub entry_text : Entry → Text
entry_text e =
    codes "state="
    ++ (e.state
        ++ (codes " proto="
            ++ (e.proto
                ++ (codes " "
                    ++ (e.src
                        ++ (codes ":"
                            ++ (show_port e.sport
                                ++ (codes " -> "
                                    ++ (e.dst ++ (codes ":" ++ show_port e.dport))))))))))
