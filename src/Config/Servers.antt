-- ===== src/Config/Servers.antt =====
-- config/config.go: the name servers and the nets of the DNS section.
use clash_flt.Prelude.{Option, List, [], ◌∷◌, ◌++◌, if◌then◌else◌}
use clash_flt.Prelude.Text.{Text, codes, text_eq, contains}
use clash_flt.Picker.{ok, err}
use clash_flt.Metadata.{Ip}
use clash_flt.Trie.{valid_and_split_domain}
use clash_flt.Rule.{IpNet}
use clash_flt.Dns.Resolver.{NameServer}
use clash_flt.Config.Checked.{
  Checked, bad_server, bad_address, unsupported_scheme, invalid_policy_domain, bad_cidr, or_error,
  ◌>>=◌,
}

pub record Url : Type 0 where
  pub scheme : Text
  pub host : Text
  pub path : Text
  pub user : Text
  pub fragment : Text

-- The parts of the standard library that read and print addresses. `https_url` is `String` of an
-- https URL of a host, a path and a user.
pub record Library : Type 0 where
  pub parse_ip : Text → Option Ip
  pub parse_cidr : Text → Option IpNet
  pub split_host_port : Text → Option (Text × Text)
  pub join_host_port : Text → Text → Text
  pub parse_url : Text → Option Url
  pub https_url : Text → Text → Text → Text

module _ (lib : Library) where
  unfoldable pub host_with_default_port : Text → Text → Checked Text
  host_with_default_port host def_port = do
    let address = if contains host (codes ":") then host else host ++ codes ":"
    (hostname, port) ← or_error (lib.split_host_port address) bad_address
    ok (lib.join_host_port hostname (if text_eq port [] then def_port else port))

  unfoldable pub with_scheme : Text → Text
  with_scheme server = if contains server (codes "://") then server else codes "udp://" ++ server

  unfoldable pub server_of : Text → Text → Text → NameServer
  server_of net addr interface = record { net = net; addr = addr; interface = interface }

  -- The switch over the scheme.
  unfoldable pub name_server : Url → Checked NameServer
  name_server u =
      if text_eq u.scheme (codes "udp")
      then (do addr ← host_with_default_port u.host (codes "53"); ok (server_of [] addr u.fragment))
      else if text_eq u.scheme (codes "tcp")
      then (do
        addr ← host_with_default_port u.host (codes "53")
        ok (server_of (codes "tcp") addr u.fragment))
      else if text_eq u.scheme (codes "tls")
      then (do
        addr ← host_with_default_port u.host (codes "853")
        ok (server_of (codes "tcp-tls") addr u.fragment))
      else if text_eq u.scheme (codes "https")
      then ok (server_of (codes "https") (lib.https_url u.host u.path u.user) u.fragment)
      else if text_eq u.scheme (codes "dhcp")
      then ok (server_of (codes "dhcp") u.host u.fragment)
      else err unsupported_scheme

  unfoldable pub parse_server : Text → Checked NameServer
  parse_server server = do
    u ← or_error (lib.parse_url (with_scheme server)) bad_server
    name_server u

  unfoldable pub parse_name_server : List Text → Checked (List NameServer)
  parse_name_server [] = ok []
  parse_name_server (server ∷ servers) = do
    ns ← parse_server server
    nameservers ← parse_name_server servers
    ok (ns ∷ nameservers)

  -- Over the pairs of a map, in the order in which the loop meets them.
  unfoldable pub parse_name_server_policy : List (Text × Text) → Checked (List (Text × NameServer))
  parse_name_server_policy [] = ok []
  parse_name_server_policy ((domain, server) ∷ policy) = do
    ns ← parse_server server
    parts ← or_error (valid_and_split_domain domain) invalid_policy_domain
    rest ← parse_name_server_policy policy
    ok ((domain, ns) ∷ rest)

  unfoldable pub parse_fallback_ip_cidr : List Text → Checked (List IpNet)
  parse_fallback_ip_cidr [] = ok []
  parse_fallback_ip_cidr (ip ∷ ips) = do
    net ← or_error (lib.parse_cidr ip) bad_cidr
    nets ← parse_fallback_ip_cidr ips
    ok (net ∷ nets)
