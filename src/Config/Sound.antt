-- ===== src/Config/Sound.antt =====
-- What holds of DNS settings that were accepted.
use clash_flt.Prelude.{
  ◌≡◌, ◌-◌, ◌*◌, ◌^◌, refl, sym, ap, subst, inl, inr, Bool, true, false, ◌&&◌, not, Option, none,
  some, List, [], ◌∷◌, ltb, if◌then◌else◌, arith, All, length, Bool-cases, Option-cases,
}
use clash_flt.Prelude.Text.{Text}
use clash_flt.Picker.{ok}
use clash_flt.Metadata.{Ip, is_some}
use clash_flt.Trie.{Node}
use clash_flt.Rule.{IpNet}
use clash_flt.FakeIp.{Ipv4, Key, Pool, MemoryStore}
use clash_flt.FakeIp.Assign.{IsValid}
use clash_flt.FakeIp.Range.{Net, new-IsValid}
use clash_flt.Enhancer.{is_fake_mode}
use clash_flt.Dns.Resolver.{NameServer, is_empty_list}
use clash_flt.Config.Checked.{
  Checked, ConfigError, bad_fake_ip_range, no_fake_ip, short_ip, no_nameserver, or_error, ◌>>=◌,
}
use clash_flt.Config.Blame.{bind-ok, or_error-ok}
use clash_flt.Config.Servers.{Library, parse_server, parse_name_server, parse_name_server_policy}
use clash_flt.Config.Settings.{
  RawDns, Dns, mask_ones, skip_host, first_four, pool_of, check_default_nameserver,
  check_search_domains, fake_pool, ensure, parse_dns,
}

ensure-true : (b : Bool) (e : ConfigError) (u : Unit {0}) → ensure b e ≡ ok u → b ≡ true
unfolding ensure
ensure-true true e u h = refl
ensure-true false e u h = absurd (ground arith)

ok-inj : {A : Type 0} {a b : A} → ◌≡◌ {A = Checked A} (ok a) (ok b) → a ≡ b
ok-inj h = ground arith

unless-some :
    {A : Type 0} (b : Bool) (o : Option A) (a : A) → (if b then none else o) ≡ some a → o ≡ some a
unless-some true o a h = absurd (ground arith)
unless-some false o a h = h

module _ (lib : Library) where
  -- The server's address has an IP address for its host.
  abbrev pub HasIp : NameServer → Type 0
  HasIp ns =
      (host : Text) × (port : Text) × (lib.split_host_port ns.addr ≡ some (host, port))
      × (is_some (lib.parse_ip host) ≡ true)

  check_default_nameserver-HasIp :
      (servers : List NameServer) (u : Unit {0})
      → check_default_nameserver lib servers ≡ ok u
      → All HasIp servers
  unfolding check_default_nameserver
  check_default_nameserver-HasIp [] u h = tt
  check_default_nameserver-HasIp (ns ∷ servers) u h =
      elim (Option-cases (lib.split_host_port ns.addr)) [
        | inl failed ↦ absurd (ground arith)
        | inr ((host, port), parts) ↦ elim (Bool-cases (is_some (lib.parse_ip host))) [
          | inl known ↦
              ((host, port, parts, known), check_default_nameserver-HasIp servers u (ground arith))
          | inr unknown ↦ absurd (ground arith)
        ]
      ]

  -- A net of IPv4 addresses that begins at its own address, as a CIDR text gives it.
  abbrev pub Ipv4Net : IpNet → Type 0
  Ipv4Net net =
      (length net.mask ≡ 4)
      × ((ip : Ipv4) → first_four net.ip ≡ some ip → Net ip (2 ^ (32 - mask_ones net.mask)))

  pool_of-IsValid :
      (dec : Discrete Key) (net : IpNet) (filter : List Text) (p : Pool MemoryStore)
      → Ipv4Net net
      → pool_of net filter ≡ ok p
      → IsValid dec 1000 p []
  unfolding pool_of
  pool_of-IsValid dec net filter p (four, fits) h =
      let (ip, e, h1) = bind-ok (or_error (first_four net.ip) short_ip) _ p h in
      let made = or_error-ok _ no_fake_ip p h1 in
      new-IsValid ip (mask_ones net.mask) (8 * length net.mask) (skip_host filter) 1000 p
        (subst (λ k. Net ip (2 ^ (8 * k - mask_ones net.mask))) (sym four)
          (fits ip (or_error-ok (first_four net.ip) short_ip ip e)))
        (unless-some (ltb 63 (8 * length net.mask - mask_ones net.mask)) _ p made) dec

  fake_pool-IsValid :
      (dec : Discrete Key) (cfg : RawDns) (net : IpNet) (found : Option (Pool MemoryStore))
      → is_fake_mode cfg.enhanced_mode ≡ true
      → lib.parse_cidr cfg.fake_ip_range ≡ some net
      → Ipv4Net net
      → fake_pool lib cfg ≡ ok found
      → (p : Pool MemoryStore) × (found ≡ some p) × IsValid dec 1000 p []
  unfolding fake_pool
  fake_pool-IsValid dec cfg net found mode range masked h =
      let h0 : (or_error (lib.parse_cidr cfg.fake_ip_range) bad_fake_ip_range >>= λ n.
      pool_of n cfg.fake_ip_filter >>= λ p. ok (some p))
          ≡ ok found =
        ground arith in
      let (n, e, h1) =
        bind-ok (or_error (lib.parse_cidr cfg.fake_ip_range) bad_fake_ip_range) _ found h0 in
      let same : n ≡ net = ground (arith, or_error-ok _ bad_fake_ip_range n e) in
      let (p, made, h2) = bind-ok (pool_of n cfg.fake_ip_filter) _ found h1 in
      (
        p,
        ground arith,
        pool_of-IsValid dec n cfg.fake_ip_filter p (subst Ipv4Net (sym same) masked) made,
      )

  parse_name_server-empty :
      (servers : List Text) (found : List NameServer)
      → parse_name_server lib servers ≡ ok found
      → is_empty_list found ≡ is_empty_list servers
  unfolding parse_name_server is_empty_list
  parse_name_server-empty [] found h = ground (arith, ap is_empty_list (ok-inj h))
  parse_name_server-empty (s ∷ servers) found h =
      let (ns, read, h1) = bind-ok (parse_server lib s) _ found h in
      let (rest, reads, h2) = bind-ok (parse_name_server lib servers) _ found h1 in
      sym (ap is_empty_list (ok-inj h2))

  -- DNS settings in fake-IP mode over an IPv4 net that are accepted have a fake-IP pool that is
  -- valid and empty; each of their default name servers has an IP address for its host; and if the
  -- DNS component is on, they have a name server. A CIDR text gives a net that begins at its own
  -- address.
  pub parse_dns-IsValid :
      (dec : Discrete Key) (cfg : RawDns) (ipv6 : Bool) (hosts : Node Ip) (net : IpNet) (d : Dns)
      → is_fake_mode cfg.enhanced_mode ≡ true
      → lib.parse_cidr cfg.fake_ip_range ≡ some net
      → Ipv4Net net
      → parse_dns lib cfg ipv6 hosts ≡ ok d
      → ((p : Pool MemoryStore) × (d.fake_ip_range ≡ some p) × IsValid dec 1000 p [])
        × All HasIp d.default_nameserver
        × (d.enable && is_empty_list d.name_server ≡ false)
  unfolding parse_dns
  parse_dns-IsValid dec cfg ipv6 hosts net d mode range masked h =
      let (u1, servers, h1) = bind-ok (ensure _ _) _ d h in
      let (name_server, read, h2) = bind-ok (parse_name_server lib cfg.name_server) _ d h1 in
      let (fallback, is2, h3) = bind-ok (parse_name_server lib cfg.fallback) _ d h2 in
      let (policy, is3, h4) =
        bind-ok (parse_name_server_policy lib cfg.name_server_policy) _ d h3 in
      let (u2, is4, h5) = bind-ok (ensure _ _) _ d h4 in
      let (defaults, is5, h6) = bind-ok (parse_name_server lib cfg.default_nameserver) _ d h5 in
      let (u3, pure_ip, h7) = bind-ok (check_default_nameserver lib defaults) _ d h6 in
      let (pool, pooled, h8) = bind-ok (fake_pool lib cfg) _ d h7 in
      let (u4, domains, h9) = bind-ok (check_search_domains cfg.search_domains) _ d h8 in
      let (p, has_pool, valid) = fake_pool-IsValid dec cfg net pool mode range masked pooled in
      let some_server =
        ensure-true (not (cfg.enable && is_empty_list cfg.name_server)) no_nameserver u1 servers in
      subst Accepted (ok-inj h9) (
        (p, has_pool, valid),
        check_default_nameserver-HasIp defaults u3 pure_ip,
        ground (arith, parse_name_server-empty cfg.name_server name_server read),
      )
    where
      Accepted : Dns → Type 0
      Accepted d =
          ((p : Pool MemoryStore) × (d.fake_ip_range ≡ some p) × IsValid dec 1000 p [])
          × All HasIp d.default_nameserver
          × (d.enable && is_empty_list d.name_server ≡ false)
