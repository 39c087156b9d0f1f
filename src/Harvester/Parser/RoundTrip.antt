-- ===== src/Harvester/Parser/RoundTrip.antt =====
-- The lines of nft's trace, printed and parsed.
use network_sandbox_engine.Prelude.{
  ℕ, Text, codes, after, decimal, is_word, is_digit, false, Option, none, some, ◌∷◌, ◌++◌, ◌≡◌,
  refl,
}
use network_sandbox_engine.Prelude.Spans.{
  Run, run, run_of-Run, run_of-end, Run-decimal, digits_value-decimal,
}
use network_sandbox_engine.Harvester.Parser.{
  packet_re, rule_re, verdict_re, verdict_group, rule_groups, rule_id, find_iif, iif_here,
  parse_line, is_lower_hex,
}
use network_sandbox_engine.Harvester.Parser.Names.{prefix_of, prefix-line, unquote-shown}
use network_sandbox_engine.Harvester.Parser.Bodies.{rule_body-plain}
use network_sandbox_engine.Harvester.Parser.Printed.{
  Header, IsHeader, line_of, Content, IsContent, rule, a_packet, a_rule, a_verdict, a_policy,
  IsVerdict, Verdict, text_with, word_of, is_iface, is_plain, ending, show, event_of,
}

-- The interface of a packet.
find_iif-packet :
    {name : Text}
    → Run is_iface name
    → (more : Text) → find_iif b':' (codes " iif \"" ++ (name ++ 34 ∷ more)) ≡ some name
unfolding find_iif iif_here after
find_iif-packet a more = rw (run_of-Run is_iface a 34 more refl) refl

rule_id-shown :
    {id : Text}
    → Run is_lower_hex id
    → (handle : ℕ) (rest : Text)
    → rule_id
        (codes "0x" ++ (id ++ (codes " (handle " ++ (decimal handle ++ (codes ") " ++ rest)))))
      ≡ some (decimal handle, rest)
unfolding rule_id after
rule_id-shown a handle rest =
    rw (run_of-Run is_lower_hex a 32 _ refl, run_of-Run is_digit (Run-decimal handle) b')' _ refl)
      refl

rule_groups-shown :
    {id text : Text} {v : Option Verdict}
    → Run is_lower_hex id
    → (handle : ℕ) → Run is_plain text
    → IsVerdict v
    → rule_groups (
        codes "0x"
        ++ (id ++ (codes " (handle " ++ (decimal handle ++ (codes ") " ++ (text ++ ending v))))))
      ≡ some (some (decimal handle), text_with text v, word_of v)
unfolding rule_groups
rule_groups-shown r handle (run {d} {t} (q, a)) i =
    rw (rule_groups, rule_id-shown r handle _, rule_body-plain d t a i) refl

verdict_group-verdict : {v : Text} → Run is_word v → verdict_group (codes "verdict " ++ v) ≡ some v
unfolding verdict_group after
verdict_group-verdict a = rw (run_of-end is_word a) refl

verdict_group-policy : {v : Text} → Run is_word v → verdict_group (codes "policy " ++ v) ≡ some v
unfolding verdict_group after
verdict_group-policy a = rw (run_of-end is_word a) refl

-- What `_PACKET_RE` and `_RULE_RE` do not match.
packet_re-none :
    {h : Header}
    → IsHeader h
    → (rest : Text) → after (codes "packet:") rest ≡ none
    → packet_re (line_of h rest) ≡ none
unfolding packet_re
packet_re-none i rest e = rw (prefix-line i rest, e) refl

rule_re-none :
    {h : Header}
    → IsHeader h
    → (rest : Text) → after (codes "rule ") rest ≡ none
    → rule_re (line_of h rest) ≡ none
unfolding rule_re
rule_re-none i rest e = rw (prefix-line i rest, e) refl

rule_re-rule :
    {h : Header} {id text : Text} {v : Option Verdict}
    → IsHeader h
    → Run is_lower_hex id
    → (handle : ℕ) → Run is_plain text
    → IsVerdict v
    → rule_re (line_of h (show (rule id handle text v)))
      ≡ some (prefix_of h, (some (decimal handle), text_with text v, word_of v))
unfolding rule_re after
rule_re-rule i r handle t v = rw (prefix-line i _, rule_groups-shown r handle t v) refl

verdict_re-word :
    {h : Header}
    → IsHeader h
    → (rest : Text) {v : Text} → verdict_group rest ≡ some v
    → verdict_re (line_of h rest) ≡ some (prefix_of h, v)
unfolding verdict_re
verdict_re-word i rest e = rw (prefix-line i rest, e) refl

-- Unless the parser is forced to be blind, a trace line of one of four shapes is parsed to the event that
-- it reports: a packet with its interface, quoted behind `packet: iif` and without white space or quotes;
-- a rule with its handle, its text without the white space around it and, where the rule has one, its
-- verdict of one word in upper case; a verdict or a policy, of one word, in upper case. A rule whose
-- verdict has a target behind its word, such as `(verdict jump out)`, is reported without a verdict and
-- with that parenthesis in its text. The trace id is hexadecimal and each name is quoted or of the bare
-- class; a rule stands with its id, in lower-case hexadecimal digits, and its handle; its text is not
-- empty, and neither it nor the target has an opening parenthesis.
pub parse_line-show :
    {h : Header} {c : Content}
    → IsHeader h
    → IsContent c
    → (now : ℕ) → parse_line false now (line_of h (show c)) ≡ some (event_of now h c)
unfolding parse_line packet_re after
parse_line-show i (a_packet a more) now =
    rw
      (
        parse_line,
        packet_re,
        prefix-line i _,
        find_iif-packet a more,
        unquote-shown i.family,
        unquote-shown i.table,
        unquote-shown i.chain,
      )
      refl
parse_line-show i (a_rule r handle t v) now =
    rw
      (
        parse_line,
        packet_re-none i _ refl,
        rule_re-rule i r handle t v,
        digits_value-decimal handle,
        unquote-shown i.family,
        unquote-shown i.table,
        unquote-shown i.chain,
      )
      refl
parse_line-show i (a_verdict a) now =
    rw
      (
        parse_line,
        packet_re-none i _ refl,
        rule_re-none i _ refl,
        verdict_re-word i _ (verdict_group-verdict a),
        unquote-shown i.family,
        unquote-shown i.table,
        unquote-shown i.chain,
      )
      refl
parse_line-show i (a_policy a) now =
    rw
      (
        parse_line,
        packet_re-none i _ refl,
        rule_re-none i _ refl,
        verdict_re-word i _ (verdict_group-policy a),
        unquote-shown i.family,
        unquote-shown i.table,
        unquote-shown i.chain,
      )
      refl
