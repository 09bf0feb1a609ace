-- ===== src/Rule.antt =====
-- rule/*.go and constant/rule.go: the rules that choose a proxy for a connection.
--
-- A rule's struct is a constructor with the struct's fields. What a rule asks of code outside the
-- repository is a field of `Oracle`.
pub mod Parse
pub mod Meaning
pub mod Ports
use mathlib.Core.List.{reverse}
use Prim.Native.Nat.{bit_and}
use clash_flt.Prelude.{
  ℕ, zero, suc, ◌+◌, ◌*◌, ◌-◌, ◌/◌, ◌%◌, ◌≡◌, Bool, true, false, ◌&&◌, ◌||◌, not, Option, none,
  some, List, [], ◌∷◌, ◌++◌, ◌==◌, leb, ltb, if◌then◌else◌, length,
}
use clash_flt.Prelude.Text.{Text, codes, text_eq, has_suffix, contains, to_lower, equal_fold}
use clash_flt.FakeIp.{to4}
use clash_flt.Metadata.{Metadata, Ip, is_some}

-- `net.IPNet`: the address and the mask, of one length.
pub record IpNet : Type 0 where
  pub ip : Ip
  pub mask : Ip

-- The GeoIP database, the kernel's sets of addresses, and the parts of the standard library that
-- read and print addresses.
pub record Oracle : Type 0 where
  pub country : Ip → Text
  pub ipset_test : Text → Option Ip → Option Bool
  pub ipset_verify : Text → Bool
  pub parse_cidr : Text → Option IpNet
  pub net_string : IpNet → Text
  pub port_string : ℕ → Text

pub data PortType : Type 0 where
  port_src port_dest port_inbound : PortType

pub data RuleType : Type 0 where
  domain domain_suffix domain_keyword geoip ipcidr src_ipcidr src_port dst_port inbound_port :
      RuleType
  process process_path ipset match : RuleType

pub data Rule : Type 0 where
  domain_rule domain_suffix_rule domain_keyword_rule : Text → Text → Rule
  geoip_rule : Text → Text → Bool → Rule
  ipcidr_rule : IpNet → Text → Bool → Bool → Rule
  ipset_rule : Text → Text → Bool → Rule
  port_rule : Text → ℕ → PortType → Rule
  process_rule : Text → Text → Bool → Rule
  match_rule : Text → Rule

unfoldable pub rule_type_string : RuleType → Text
rule_type_string domain = codes "Domain"
rule_type_string domain_suffix = codes "DomainSuffix"
rule_type_string domain_keyword = codes "DomainKeyword"
rule_type_string geoip = codes "GeoIP"
rule_type_string ipcidr = codes "IPCIDR"
rule_type_string src_ipcidr = codes "SrcIPCIDR"
rule_type_string src_port = codes "SrcPort"
rule_type_string dst_port = codes "DstPort"
rule_type_string inbound_port = codes "InboundPort"
rule_type_string process = codes "Process"
rule_type_string process_path = codes "ProcessPath"
rule_type_string ipset = codes "IPSet"
rule_type_string match = codes "Match"

-- The comparison of `IPNet.Contains`: false if the lengths differ.
unfoldable pub net_contains : Ip → Ip → Ip → Bool
net_contains [] [] [] = true
net_contains (n ∷ net) (m ∷ mask) (b ∷ ip) = bit_and n m == bit_and b m && net_contains net mask ip
net_contains _ _ _ = false

-- An IPv4 address is compared by its four bytes.
unfoldable pub normal_ip : Ip → Ip
normal_ip ip = elim (to4 ip) [ none ↦ ip | some v ↦ v.a ∷ v.b ∷ v.c ∷ v.d ∷ [] ]

-- `IP.IsPrivate`: 10/8, 172.16/12 and 192.168/16, or fc00::/7.
unfoldable pub is_private : Ip → Bool
is_private (a ∷ b ∷ c ∷ d ∷ []) =
    a == 10 || (a == 172 && bit_and b 240 == 16) || (a == 192 && b == 168)
is_private (a ∷ rest) = length rest == 15 && bit_and a 254 == 252
is_private [] = false

-- `filepath.Base` of a path with slashes.
unfoldable pub drop_slashes : Text → Text
drop_slashes [] = []
drop_slashes (c ∷ s) = if c == b'/' then drop_slashes s else c ∷ s

unfoldable pub until_slash : Text → Text
until_slash [] = []
until_slash (c ∷ s) = if c == b'/' then [] else c ∷ until_slash s

unfoldable pub base : Text → Text
base [] = codes "."
base (c ∷ s) =
    let last = reverse (until_slash (drop_slashes (reverse (c ∷ s)))) in
    if text_eq last [] then codes "/" else last

unfoldable pub is_lan : Text → Bool
is_lan country = equal_fold country (codes "LAN")

unfoldable pub inbound_port_of : Option (Ip × ℕ) → ℕ
inbound_port_of none = 0
inbound_port_of (some (_, p)) = p

-- The interface `Rule`, over what a rule asks of other code.
pub record Methods : Type 0 where
  pub rule_type : RuleType
  pub match : Oracle → Metadata → Bool
  pub adapter : Text
  pub payload : Oracle → Text
  pub should_resolve_ip : Bool
  pub should_find_process : Bool

abbrev pub domain_methods : Text → Text → Methods
domain_methods d a = record {
  rule_type = domain;
  match = λ o m. text_eq m.host d;
  adapter = a;
  payload = λ o. d;
  should_resolve_ip = false;
  should_find_process = false;
}

abbrev pub domain_suffix_methods : Text → Text → Methods
domain_suffix_methods s a = record {
  rule_type = domain_suffix;
  match = λ o m. has_suffix m.host (b'.' ∷ s) || text_eq m.host s;
  adapter = a;
  payload = λ o. s;
  should_resolve_ip = false;
  should_find_process = false;
}

abbrev pub domain_keyword_methods : Text → Text → Methods
domain_keyword_methods k a = record {
  rule_type = domain_keyword;
  match = λ o m. contains m.host k;
  adapter = a;
  payload = λ o. k;
  should_resolve_ip = false;
  should_find_process = false;
}

unfoldable pub geoip_match : Oracle → Text → Option Ip → Bool
geoip_match o c none = false
geoip_match o c (some ip) =
    if is_lan c then is_private (normal_ip ip) else equal_fold (o.country ip) c

abbrev pub geoip_methods : Text → Text → Bool → Methods
geoip_methods c a no_resolve = record {
  rule_type = geoip;
  match = λ o m. geoip_match o c m.dst_ip;
  adapter = a;
  payload = λ o. c;
  should_resolve_ip = not no_resolve;
  should_find_process = false;
}

unfoldable pub ipcidr_match : IpNet → Option Ip → Bool
ipcidr_match i none = false
ipcidr_match i (some ip) = net_contains i.ip i.mask (normal_ip ip)

abbrev pub ipcidr_methods : IpNet → Text → Bool → Bool → Methods
ipcidr_methods i a source no_resolve = record {
  rule_type = if source then src_ipcidr else ipcidr;
  match = λ o m. ipcidr_match i (if source then m.src_ip else m.dst_ip);
  adapter = a;
  payload = λ o. o.net_string i;
  should_resolve_ip = not no_resolve;
  should_find_process = false;
}

abbrev pub or_false : Option Bool → Bool
or_false none = false
or_false (some b) = b

-- An error of the test is no match.
abbrev pub ipset_methods : Text → Text → Bool → Methods
ipset_methods s a no_resolve = record {
  rule_type = ipset;
  match = λ o m. or_false (o.ipset_test s m.dst_ip);
  adapter = a;
  payload = λ o. s;
  should_resolve_ip = not no_resolve;
  should_find_process = false;
}

unfoldable pub port_rule_type : PortType → RuleType
port_rule_type port_src = src_port
port_rule_type port_dest = dst_port
port_rule_type port_inbound = inbound_port

unfoldable pub port_match : PortType → ℕ → Metadata → Bool
port_match port_src p m = m.src_port == p
port_match port_dest p m = m.dst_port == p
port_match port_inbound p m = inbound_port_of m.origin_dst == p

abbrev pub port_methods : Text → ℕ → PortType → Methods
port_methods a p t = record {
  rule_type = port_rule_type t;
  match = λ o m. port_match t p m;
  adapter = a;
  payload = λ o. o.port_string p;
  should_resolve_ip = false;
  should_find_process = false;
}

abbrev pub process_methods : Text → Text → Bool → Methods
process_methods a p name_only = record {
  rule_type = if name_only then process else process_path;
  match =
      λ o m. if name_only then equal_fold (base m.process_path) p else equal_fold m.process_path p;
  adapter = a;
  payload = λ o. p;
  should_resolve_ip = false;
  should_find_process = true;
}

abbrev pub match_methods : Text → Methods
match_methods a = record {
  rule_type = match;
  match = λ o m. true;
  adapter = a;
  payload = λ o. [];
  should_resolve_ip = false;
  should_find_process = false;
}

unfoldable pub methods : Rule → Methods
methods (domain_rule d a) = domain_methods d a
methods (domain_suffix_rule s a) = domain_suffix_methods s a
methods (domain_keyword_rule k a) = domain_keyword_methods k a
methods (geoip_rule c a no_resolve) = geoip_methods c a no_resolve
methods (ipcidr_rule i a source no_resolve) = ipcidr_methods i a source no_resolve
methods (ipset_rule s a no_resolve) = ipset_methods s a no_resolve
methods (port_rule a p t) = port_methods a p t
methods (process_rule a p name_only) = process_methods a p name_only
methods (match_rule a) = match_methods a

-- The methods, of any rule.
unfoldable pub adapter : Rule → Text
unfolding methods
adapter r = (methods r).adapter

unfoldable pub should_resolve_ip : Rule → Bool
unfolding methods
should_resolve_ip r = (methods r).should_resolve_ip

unfoldable pub should_find_process : Rule → Bool
unfolding methods
should_find_process r = (methods r).should_find_process

unfoldable pub matches : Oracle → Rule → Metadata → Bool
unfolding methods
matches o r m = (methods r).match o m
