-- ===== src/Config/Groups.antt =====
-- adapter/outboundgroup/parser.go, and `parseProxies` of config/config.go: the proxies, the groups of
-- proxies and their providers.
--
-- `P` is a proxy. The parsers of a proxy and of a provider are parameters, and so is the first fetch
-- of a provider; the goroutines of the health checks are left out.
use clash_flt.Prelude.{
  ℕ, Bool, true, ◌&&◌, ◌||◌, not, Option, none, some, List, [], ◌∷◌, ◌++◌, map, ◌==◌, if◌then◌else◌,
}
use clash_flt.Prelude.Text.{Text, codes, text_eq}
use clash_flt.Picker.{ok, err}
use clash_flt.Metadata.{is_some}
use clash_flt.Dns.Resolver.{is_empty_list}
use clash_flt.Config.Dag.{GroupOption}
use clash_flt.Config.Checked.{
  Checked, unknown_proxy, duplicate_name, bad_group_format, bad_filter, missing_proxies,
  unknown_provider, compatible_provider, duplicate_provider, missing_health_check, group_type,
  unknown_strategy, or_error, ◌>>=◌,
}
use clash_flt.Config.Settings.{ensure}

-- `GroupCommonOption`, as decoded.
pub record GroupCommonOption : Type 0 where
  pub name : Text
  pub tp : Text
  pub proxies : List Text
  pub use_providers : List Text
  pub url : Text
  pub interval : ℕ
  pub filter : Text

-- A mapping of the configuration: its name and its strategy, if they are strings, and what the decoder
-- makes of it.
pub record RawGroup : Type 0 where
  pub name : Option Text
  pub strategy : Option Text
  pub option : Option GroupCommonOption

unfoldable pub dag_option : RawGroup → Option GroupOption
dag_option g = elim g.option [
  | none ↦ none
  | some o ↦ some (record { name = o.name; proxies = o.proxies })
]

pub data GroupKind : Type 0 where
  url_test selector fallback relay : GroupKind
  load_balance : Text → GroupKind

-- The vehicle is the program's own, or a file or an address.
pub record Provider (P : Type 0) : Type 0 where
  pub name : Text
  pub compatible : Bool
  pub proxies : List P

pub data Source (P : Type 0) : Type 0 where
  direct_source : Provider P → Source P
  filterable : Text → List (Provider P) → Text → Source P

pub record Group (P : Type 0) : Type 0 where
  pub name : Text
  pub kind : GroupKind
  pub providers : List (Source P)

module _ {A : Type 0} where
  unfoldable pub lookup : Text → List (Text × A) → Option A
  lookup k [] = none
  lookup k ((j, a) ∷ m) = if text_eq j k then some a else lookup k m

  -- `m[k] = a`
  unfoldable pub insert : Text → A → List (Text × A) → List (Text × A)
  insert k a [] = (k, a) ∷ []
  insert k a ((j, b) ∷ m) = if text_eq j k then (j, a) ∷ m else (j, b) ∷ insert k a m

  unfoldable pub get_proxies : List (Text × A) → List Text → Checked (List A)
  get_proxies mapping [] = ok []
  get_proxies mapping (name ∷ list) = do
    p ← or_error (lookup name mapping) (unknown_proxy name)
    ps ← get_proxies mapping list
    ok (p ∷ ps)

-- A group that is selected by hand needs no health check.
unfoldable pub has_health_check : GroupCommonOption → Bool
has_health_check o =
    if text_eq o.tp (codes "select") || text_eq o.tp (codes "relay")
    then true
    else not (text_eq o.url []) && not (o.interval == 0)

-- `parseStrategy` and the switch of `NewLoadBalance`
unfoldable pub load_balance_of : Option Text → Checked GroupKind
load_balance_of none = ok (load_balance (codes "consistent-hashing"))
load_balance_of (some strategy) =
    if text_eq strategy (codes "consistent-hashing") || text_eq strategy (codes "round-robin")
    then ok (load_balance strategy)
    else err unknown_strategy

unfoldable pub group_kind : RawGroup → GroupCommonOption → Checked GroupKind
group_kind g o =
    if text_eq o.tp (codes "url-test")
    then ok url_test
    else if text_eq o.tp (codes "select")
    then ok selector
    else if text_eq o.tp (codes "fallback")
    then ok fallback
    else if text_eq o.tp (codes "load-balance")
    then load_balance_of g.strategy
    else if text_eq o.tp (codes "relay")
    then ok relay
    else err group_type

abbrev pub Providers : Type 0 → Type 0
Providers P = List (Text × Provider P)

module _ {P : Type 0} where
  unfoldable pub own_provider : Provider P → Checked (Provider P)
  own_provider p = if p.compatible then err compatible_provider else ok p

  unfoldable pub get_providers : Providers P → List Text → Checked (List (Provider P))
  get_providers mapping [] = ok []
  get_providers mapping (name ∷ list) = do
    found ← or_error (lookup name mapping) unknown_provider
    p ← own_provider found
    ps ← get_providers mapping list
    ok (p ∷ ps)

  -- The provider of the proxies that the group names itself.
  unfoldable pub add_proxies :
      GroupCommonOption → List (Text × P) → Providers P → Checked (List (Source P) × Providers P)
  add_proxies o proxy_map providers = if is_empty_list o.proxies then ok ([], providers) else (do
    ps ← get_proxies proxy_map o.proxies
    fresh ← ensure (not (is_some (lookup o.name providers))) duplicate_provider
    checks ← ensure (has_health_check o) missing_health_check
    let pd : Provider P = record { name = o.name; compatible = true; proxies = ps }
    ok (direct_source pd ∷ [], insert o.name pd providers))

  unfoldable pub used_sources : GroupCommonOption → List (Provider P) → List (Source P)
  used_sources o list =
      if text_eq o.filter [] then map direct_source list else filterable o.name list o.filter ∷ []

  unfoldable pub add_used : GroupCommonOption → Providers P → Checked (List (Source P))
  add_used o providers =
      if is_empty_list o.use_providers
      then ok []
      else (do list ← get_providers providers o.use_providers; ok (used_sources o list))

  -- `compiles` says whether a regular expression can be compiled.
  module _ (compiles : Text → Bool) where
    unfoldable pub parse_proxy_group :
        RawGroup → List (Text × P) → Providers P → Checked (Group P × Providers P)
    parse_proxy_group g proxy_map providers = do
      o ← or_error g.option bad_group_format
      named ← ensure (not (text_eq o.tp [] || text_eq o.name [])) bad_group_format
      filter ← ensure (text_eq o.filter [] || compiles o.filter) bad_filter
      some_source ←
          ensure (not (is_empty_list o.proxies && is_empty_list o.use_providers)) missing_proxies
      (own, providers') ← add_proxies o proxy_map providers
      used ← add_used o providers'
      kind ← group_kind g o
      ok (record { name = o.name; kind = kind; providers = own ++ used }, providers')

    -- The loop over the groups in their new order. A group is a proxy too.
    unfoldable pub parse_groups :
        (Group P → P)
        → List RawGroup
        → List (Text × P)
        → Providers P
        → Checked (List (Text × P) × Providers P)
    parse_groups of_group [] proxies providers = ok (proxies, providers)
    parse_groups of_group (g ∷ groups) proxies providers = do
      (group, providers') ← parse_proxy_group g proxies providers
      fresh ← ensure (not (is_some (lookup group.name proxies))) duplicate_name
      parse_groups of_group groups (insert group.name (of_group group) proxies) providers'
