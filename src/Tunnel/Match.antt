-- ===== src/Tunnel/Match.antt =====
-- The loop of `match`: the first rule that chooses a proxy decides, and what the loop does to the
-- metadata on the way.
use clash_flt.Prelude.{◌≡◌, none, some, List, [], ◌∷◌, ◌++◌}
use clash_flt.Prelude.Text.{codes}
use clash_flt.Metadata.{Metadata}
use clash_flt.Rule.{Rule}
use clash_flt.Tunnel.{World, State, Proxy, Progress, Route, lookup_proxy, prepare, choose}

module _ (w : World) (st : State) where
  -- The progress of the loop before it tests the last of some rules, none of which decided.
  pub prepare_all : List Rule → Progress → Progress
  prepare_all [] s = s
  prepare_all (r ∷ rules) s = prepare_all rules (prepare w r s)

  -- Each of the rules leaves the choice to the next one, at the metadata that it sees.
  abbrev pub AllPass : List Rule → Progress → Type 0
  AllPass [] s = Unit
  AllPass (r ∷ rules) s =
      (choose w st r (prepare w r s).metadata ≡ none) × AllPass rules (prepare w r s)

  -- What the loop returns for the rules from `s` on.
  pub data Decides (rules : List Rule) (s : Progress) (route : Route) : Type 0 where
    by_rule :
        (before after : List Rule) (r : Rule) (p : Proxy)
        → rules ≡ before ++ r ∷ after
        → AllPass before s
        → choose w st r (prepare w r (prepare_all before s)).metadata ≡ some p
        → route ≡ record {
          metadata = (prepare w r (prepare_all before s)).metadata;
          proxy = some p;
          rule = some r;
        }
        → Decides rules s route
    by_default :
        AllPass rules s
        → route ≡ record {
          metadata = (prepare_all rules s).metadata;
          proxy = lookup_proxy (codes "DIRECT") st.proxies;
          rule = none;
        }
        → Decides rules s route
