-- ===== src/Tests/Rules.antt =====
-- Examples for the rules and their parser.
use clash_flt.Prelude.{◌≡◌, ◌↔◌, ◌⊎◌, refl, true, List, [], ◌∷◌, ◌++◌}
use clash_flt.Prelude.Text.{Text, codes, text_eq, to_lower}
use clash_flt.Metadata.{Metadata}
use clash_flt.Rule.{Rule, geoip_rule, matches}
use clash_flt.Rule.Parse.{ok, parse_rule, has_no_resolve, new_geoip, new_domain_suffix}
use clash_flt.Rule.Meaning.{matches-domain_suffix_iff}
use clash_flt.Tests.Routes.{oracle, metadata}

abbrev no_resolve : List Text
no_resolve = codes "no-resolve" ∷ []

abbrev cn_rule : Rule
cn_rule = geoip_rule (codes "CN") (codes "DIRECT") true

cn_parsed : parse_rule oracle (codes "GEOIP") (codes "CN") (codes "DIRECT") no_resolve ≡ ok cn_rule
unfolding parse_rule new_geoip has_no_resolve text_eq
cn_parsed = refl

no_resolve_found : has_no_resolve no_resolve ≡ true
unfolding has_no_resolve text_eq
no_resolve_found = refl

abbrev named : Metadata
named = record metadata { host = codes "www.example.com" }

matches-domain_suffix_iff_example :
    (matches oracle (new_domain_suffix (codes "Example.com") (codes "A")) named ≡ true) ↔ (
      (named.host ≡ to_lower (codes "Example.com"))
      ⊎ ((u : Text) × (named.host ≡ u ++ b'.' ∷ to_lower (codes "Example.com"))))
matches-domain_suffix_iff_example =
    matches-domain_suffix_iff oracle (codes "Example.com") (codes "A") named
