-- ===== src/Rule/Meaning.antt =====
-- What the parser makes of a configuration line, and what the rules about names accept.
use clash_flt.Prelude.{◌≡◌, ◌↔◌, ◌⊎◌, inl, inr, true, false, List, ◌∷◌, ◌++◌, arith, Bool-cases}
use clash_flt.Prelude.Text.{Text, text_eq_iff, to_lower, has_suffix, has_suffix_iff, contains_iff}
use clash_flt.Metadata.{Metadata}
use clash_flt.Rule.{Oracle, Rule, adapter, should_resolve_ip, matches}
use clash_flt.Rule.Parse.{
  ok, has_no_resolve, new_domain, new_domain_suffix, new_domain_keyword, new_geoip, new_ipcidr,
  new_port, new_process, new_ipset, new_match, parse_rule,
}

-- The rule that a configuration line gives names the line's target, whatever the line's type.
pub adapter-parse_rule :
    (o : Oracle) (tp payload target : Text) (params : List Text) (r : Rule)
    → parse_rule o tp payload target params ≡ ok r
    → adapter r ≡ target
unfolding parse_rule new_domain new_domain_suffix new_domain_keyword new_geoip new_ipcidr new_port
    new_process new_ipset new_match adapter
adapter-parse_rule o tp payload target params r h = ground arith

-- A line with the parameter "no-resolve" gives, if it gives a rule, one that needs no address
-- resolved.
should_resolve_ip-parse_rule :
    (o : Oracle) (tp payload target : Text) (params : List Text) (r : Rule)
    → has_no_resolve params ≡ true
    → parse_rule o tp payload target params ≡ ok r
    → should_resolve_ip r ≡ false
unfolding parse_rule new_domain new_domain_suffix new_domain_keyword new_geoip new_ipcidr new_port
    new_process new_ipset new_match should_resolve_ip
should_resolve_ip-parse_rule o tp payload target params r n h = ground arith

-- A DOMAIN-SUFFIX rule matches a host exactly if the host is the payload in lower case, or ends in
-- a dot and that.
pub matches-domain_suffix_iff :
    (o : Oracle) (payload target : Text) (m : Metadata)
    → (matches o (new_domain_suffix payload target) m ≡ true)
      ↔ ((m.host ≡ to_lower payload) ⊎ ((u : Text) × (m.host ≡ u ++ b'.' ∷ to_lower payload)))
unfolding matches new_domain_suffix
matches-domain_suffix_iff o payload target m =
    let (one, two) = has_suffix_iff m.host (b'.' ∷ to_lower payload) in
    let (three, four) = text_eq_iff m.host (to_lower payload) in
    (
      λ h. elim (Bool-cases (has_suffix m.host (b'.' ∷ to_lower payload))) [
        | inl found ↦ inr (one found)
        | inr missed ↦ inl (three (ground arith))
      ],
      λ h. elim h [ inl e ↦ ground (arith, four e) | inr e ↦ ground (arith, two e) ],
    )

-- A DOMAIN-KEYWORD rule matches a host exactly if its payload in lower case stands in the host.
matches-domain_keyword_iff :
    (o : Oracle) (payload target : Text) (m : Metadata)
    → (matches o (new_domain_keyword payload target) m ≡ true)
      ↔ ((u : Text) × (v : Text) × (m.host ≡ u ++ to_lower payload ++ v))
unfolding matches new_domain_keyword
matches-domain_keyword_iff o payload target m = contains_iff m.host (to_lower payload)
