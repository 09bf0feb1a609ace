-- ===== src/Rule/Parse.antt =====
-- rule/parser.go and rule/base.go, with the constructors that the parser calls.
use clash_flt.Prelude.{
  ℕ, ◌+◌, ◌*◌, ◌-◌, Bool, true, false, ◌&&◌, ◌||◌, Option, none, some, List, [], ◌∷◌, leb, ltb,
  if◌then◌else◌,
}
use clash_flt.Prelude.Text.{Text, codes, text_eq, to_lower}
use clash_flt.Rule.{
  Oracle, PortType, port_src, port_dest, port_inbound, Rule, domain_rule, domain_suffix_rule,
  domain_keyword_rule, geoip_rule, ipcidr_rule, ipset_rule, port_rule, process_rule, match_rule,
}

pub data RuleError : Type 0 where
  payload_error ipset_error unsupported_rule_type : RuleError

pub data Parsed : Type 0 where
  ok : Rule → Parsed
  err : RuleError → Parsed

unfoldable pub has_no_resolve : List Text → Bool
has_no_resolve [] = false
has_no_resolve (p ∷ params) = text_eq p (codes "no-resolve") || has_no_resolve params

unfoldable pub new_domain : Text → Text → Rule
new_domain payload target = domain_rule (to_lower payload) target

unfoldable pub new_domain_suffix : Text → Text → Rule
new_domain_suffix payload target = domain_suffix_rule (to_lower payload) target

unfoldable pub new_domain_keyword : Text → Text → Rule
new_domain_keyword payload target = domain_keyword_rule (to_lower payload) target

unfoldable pub new_geoip : Text → Text → Bool → Rule
new_geoip country target no_resolve = geoip_rule country target no_resolve

-- The options `WithIPCIDRSourceIP` and `WithIPCIDRNoResolve` set the two flags.
unfoldable pub new_ipcidr : Oracle → Text → Text → Bool → Bool → Parsed
new_ipcidr o s target source no_resolve = elim (o.parse_cidr s) [
  | none ↦ err payload_error
  | some net ↦ ok (ipcidr_rule net target source no_resolve)
]

-- `strconv.ParseUint(s, 10, 16)`: decimal digits only, and a value below 2 ^ 16.
unfoldable pub digits_from : ℕ → Text → Option ℕ
digits_from acc [] = some acc
digits_from acc (c ∷ s) =
    let rest = digits_from (acc * 10 + (c - b'0')) s in
    elim (leb b'0' c && leb c b'9') [ true ↦ rest | false ↦ none ]

unfoldable pub parse_port : Text → Option ℕ
parse_port [] = none
parse_port (c ∷ s) = elim (digits_from 0 (c ∷ s)) [
  | none ↦ none
  | some n ↦ if ltb n 65536 then some n else none
]

unfoldable pub new_port : Text → Text → PortType → Parsed
new_port port target t = elim (parse_port port) [
  | none ↦ err payload_error
  | some p ↦ ok (port_rule target p t)
]

unfoldable pub new_process : Text → Text → Bool → Rule
new_process process target name_only = process_rule target process name_only

unfoldable pub new_ipset : Oracle → Text → Text → Bool → Parsed
new_ipset o name target no_resolve =
    if o.ipset_verify name then ok (ipset_rule name target no_resolve) else err ipset_error

unfoldable pub new_match : Text → Rule
new_match target = match_rule target

unfoldable pub parse_rule : Oracle → Text → Text → Text → List Text → Parsed
parse_rule o tp payload target params =
    if text_eq tp (codes "DOMAIN")
    then ok (new_domain payload target)
    else if text_eq tp (codes "DOMAIN-SUFFIX")
    then ok (new_domain_suffix payload target)
    else if text_eq tp (codes "DOMAIN-KEYWORD")
    then ok (new_domain_keyword payload target)
    else if text_eq tp (codes "GEOIP")
    then ok (new_geoip payload target (has_no_resolve params))
    else if text_eq tp (codes "IP-CIDR") || text_eq tp (codes "IP-CIDR6")
    then new_ipcidr o payload target false (has_no_resolve params)
    else if text_eq tp (codes "SRC-IP-CIDR")
    then new_ipcidr o payload target true true
    else if text_eq tp (codes "SRC-PORT")
    then new_port payload target port_src
    else if text_eq tp (codes "DST-PORT")
    then new_port payload target port_dest
    else if text_eq tp (codes "INBOUND-PORT")
    then new_port payload target port_inbound
    else if text_eq tp (codes "PROCESS-NAME")
    then ok (new_process payload target true)
    else if text_eq tp (codes "PROCESS-PATH")
    then ok (new_process payload target false)
    else if text_eq tp (codes "IPSET")
    then new_ipset o payload target (has_no_resolve params)
    else if text_eq tp (codes "MATCH")
    then ok (new_match target)
    else err unsupported_rule_type
