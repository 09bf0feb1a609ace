-- ===== src/Config/Proxies.antt =====
-- config/config.go: `parseProxies`, which reads the proxies, sorts the groups and builds them, and
-- `ParseRawConfig`, which reads the whole configuration.
use clash_flt.Prelude.{
  ℕ, Bool, true, ◌&&◌, ◌||◌, not, Option, List, [], ◌∷◌, ◌++◌, map, if◌then◌else◌,
}
use clash_flt.Prelude.Text.{Text, codes, text_eq}
use clash_flt.Picker.{ok, err}
use clash_flt.Metadata.{Ip, is_some}
use clash_flt.Trie.{Node}
use clash_flt.Rule.{Oracle, Rule}
use clash_flt.Tunnel.{TunnelMode, Proxy}
use clash_flt.Listener.{Inbound, Ports}
use clash_flt.Config.Dag.{Outcome, done, fail, proxy_groups_dag_sort}
use clash_flt.Config.Checked.{
  Checked, unknown_proxy, bad_proxy, duplicate_name, missing_name, bad_order, bad_provider,
  reserved_provider, no_external_ui, or_error, ◌>>=◌,
}
use clash_flt.Config.Rules.{parse_rules, parse_hosts, parse_authentication}
use clash_flt.Config.Servers.{Library}
use clash_flt.Config.Settings.{RawDns, Dns, ensure, parse_dns}
use clash_flt.Config.Groups.{
  RawGroup, dag_option, Group, Provider, Providers, lookup, insert, parse_groups,
}

-- What the parser of the proxies asks of the rest of the program, and the order of the loops over a
-- map.
pub record Parts (P : Type 0) : Type 0 where
  pub direct_proxy : P
  pub reject_proxy : P
  pub parse_proxy : Text → Option P
  pub proxy_name : P → Text
  pub parse_proxy_provider : Text → Text → Option (Provider P)
  pub initial : Provider P → Bool
  pub compiles : Text → Bool
  pub of_group : Group P → P
  pub global_selector : List (Option P) → P
  pub order : ℕ → List Text → List Text

-- `PD`: a mapping stands as its text.
pub record RawProxies : Type 0 where
  pub proxy : List Text
  pub proxy_group : List RawGroup
  pub proxy_provider : List (Text × Text)

abbrev pub reserved_name : Text
reserved_name = codes "default"

unfoldable pub of_outcome : {A : Type 0} → Outcome A → Checked A
of_outcome (done a) = ok a
of_outcome (fail e) = err bad_order

unfoldable pub group_names : List RawGroup → Checked (List Text)
group_names [] = ok []
group_names (g ∷ groups) = do
  name ← or_error g.name missing_name
  names ← group_names groups
  ok (name ∷ names)

module _ {P : Type 0} (w : Parts P) where
  unfoldable pub first_proxies : List (Text × P)
  first_proxies = (codes "DIRECT", w.direct_proxy) ∷ (codes "REJECT", w.reject_proxy) ∷ []

  -- The map of the proxies and the list of their names, which grows at its end.
  unfoldable pub add_configured :
      List Text → List (Text × P) → List Text → Checked (List (Text × P) × List Text)
  add_configured [] proxies names = ok (proxies, names)
  add_configured (mapping ∷ config) proxies names = do
    p ← or_error (w.parse_proxy mapping) bad_proxy
    fresh ← ensure (not (is_some (lookup (w.proxy_name p) proxies))) duplicate_name
    add_configured config (insert (w.proxy_name p) p proxies) (names ++ w.proxy_name p ∷ [])

  unfoldable pub parse_providers : List (Text × Text) → Providers P → Checked (Providers P)
  parse_providers [] providers = ok providers
  parse_providers ((name, mapping) ∷ config) providers = do
    allowed ← ensure (not (text_eq name reserved_name)) reserved_provider
    pd ← or_error (w.parse_proxy_provider name mapping) bad_provider
    parse_providers config (insert name pd providers)

  unfoldable pub all_initial : Providers P → Bool
  all_initial [] = true
  all_initial ((name, pd) ∷ providers) = w.initial pd && all_initial providers

  unfoldable pub compatible_initial : Providers P → Bool
  compatible_initial [] = true
  compatible_initial ((name, pd) ∷ providers) =
      (not pd.compatible || w.initial pd) && compatible_initial providers

  -- The members of the group "GLOBAL"; a nil proxy is `none`.
  unfoldable pub global_members : List (Text × P) → List Text → List (Option P)
  global_members proxies [] = []
  global_members proxies (v ∷ proxy_list) = lookup v proxies ∷ global_members proxies proxy_list

  pub record Parsed : Type 0 where
    pub proxies : List (Text × P)
    pub providers : Providers P
    pub members : List (Option P)

  unfoldable pub parse_proxies : RawProxies → Checked Parsed
  parse_proxies cfg = do
    (configured, names) ←
        add_configured cfg.proxy first_proxies (codes "DIRECT" ∷ codes "REJECT" ∷ [])
    groups ← group_names cfg.proxy_group
    sorted ← of_outcome (proxy_groups_dag_sort w.order dag_option cfg.proxy_group)
    providers ← parse_providers cfg.proxy_provider []
    fetched ← ensure (all_initial providers) bad_provider
    (proxies, providers') ← parse_groups w.compiles w.of_group sorted configured providers
    compatible ← ensure (compatible_initial providers') bad_provider
    let members = global_members proxies (names ++ groups)
    ok (record {
      proxies = insert (codes "GLOBAL") (w.global_selector members) proxies;
      providers = providers';
      members = members;
    })

pub record Tunnel : Type 0 where
  pub network : List Text
  pub address : Text
  pub target : Text
  pub proxy : Text

pub record General : Type 0 where
  pub ports : Ports
  pub allow_lan : Bool
  pub bind_address : Text
  pub external_controller : Text
  pub external_ui : Text
  pub secret : Text
  pub mode : TunnelMode
  pub log_level : Text
  pub ipv6 : Bool
  pub interface : Text
  pub routing_mark : ℕ

-- `RawConfig`: what `parseGeneral` copies is `general`.
pub record RawConfig : Type 0 where
  pub general : General
  pub authentication : List Text
  pub tunnels : List Tunnel
  pub hosts : List (Text × Text)
  pub inbounds : List Inbound
  pub dns : RawDns
  pub raw_proxies : RawProxies
  pub rule : List Text

-- `exists` says of a path, after its resolution, whether it is there.
unfoldable pub parse_general : (Text → Bool) → General → Checked General
parse_general exists cfg = do
  there ← ensure (text_eq cfg.external_ui [] || exists cfg.external_ui) no_external_ui
  ok cfg

pub record Config (P : Type 0) (w : Parts P) : Type 0 where
  pub general : General
  pub inbounds : List Inbound
  pub parsed : Parsed w
  pub rules : List Rule
  pub hosts : Node Ip
  pub dns : Dns
  pub users : List (Text × Text)
  pub tunnels : List Tunnel

unfoldable pub check_tunnels : {A : Type 0} → List (Text × A) → List Tunnel → Checked (Unit {0})
check_tunnels proxies [] = ok tt
check_tunnels proxies (t ∷ tunnels) =
    if is_some (lookup t.proxy proxies)
    then check_tunnels proxies tunnels
    else err (unknown_proxy t.proxy)

module _ {P : Type 0} (w : Parts P) (o : Oracle) (lib : Library) (exists : Text → Bool)
    (as_proxy : P → Proxy) where
  -- The proxies as the tunnel sees them.
  unfoldable pub tunnel_proxies : List (Text × P) → List (Text × Proxy)
  tunnel_proxies proxies = map (λ e. (e.0, as_proxy e.1)) proxies

  unfoldable pub parse_raw_config : RawConfig → Checked (Config P w)
  parse_raw_config cfg = do
    general ← parse_general exists cfg.general
    parsed ← parse_proxies w cfg.raw_proxies
    rules ← parse_rules o (tunnel_proxies parsed.proxies) cfg.rule
    hosts ← parse_hosts lib.parse_ip cfg.hosts
    dns ← parse_dns lib cfg.dns cfg.general.ipv6 hosts
    tunnels ← check_tunnels parsed.proxies cfg.tunnels
    ok (record {
      general = general;
      inbounds = cfg.inbounds;
      parsed = parsed;
      rules = rules;
      hosts = hosts;
      dns = dns;
      users = parse_authentication cfg.authentication;
      tunnels = cfg.tunnels;
    })
