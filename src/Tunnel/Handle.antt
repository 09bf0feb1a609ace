-- ===== src/Tunnel/Handle.antt =====
-- From the inbound connection to the dialed one: which destinations a proxy is asked for.
use clash_flt.Prelude.{
  ◌≡◌, refl, inl, inr, Bool, true, false, not, Option, none, some, List, [], ◌∷◌, arith,
  Option-cases, Bool-cases,
}
use clash_flt.Prelude.Text.{Text}
use clash_flt.Metadata.{Metadata, Ip, is_empty, pure}
use clash_flt.Rule.{Rule}
use clash_flt.Tunnel.{
  World, State, Proxy, Progress, Route, relayed, fake_ip_enabled, mapping_enabled, is_fake_ip,
  find_host_by_ip, search_hosts, need_lookup_ip, host_to_ip, map_host, map_ip, pre_handle_metadata,
  with_ip, resolve_step, process_path_of, with_process, process_step, prepare, choose, match_loop,
  match_start, match, resolve_metadata, dial, handle_resolved, handle_tcp,
}

unfoldable pub real_address : World → Option Ip → Bool
real_address w none = true
real_address w (some ip) = not (is_fake_ip w ip)

host_to_ip-host :
    (w : World) (m : Metadata) → is_empty m.host ≡ true → is_empty (host_to_ip w m).host ≡ true
unfolding host_to_ip
host_to_ip-host w m h = ground arith

module _ (w : World)
    (none_fake : fake_ip_enabled w ≡ false → (ip : Ip) → is_fake_ip w ip ≡ false) where
  real_when_off : fake_ip_enabled w ≡ false → (o : Option Ip) → real_address w o ≡ true
  unfolding real_address
  real_when_off off none = refl
  real_when_off off (some ip) = rw (none_fake off ip) refl

  map_host-real : (host : Text) (m : Metadata) → real_address w (map_host w host m).dst_ip ≡ true
  unfolding map_host real_address
  map_host-real host m = elim (Bool-cases (fake_ip_enabled w)) [
    | inl on ↦ ground arith
    | inr off ↦ real_when_off off (map_host w host m).dst_ip
  ]

  map_ip-real :
      (ip : Ip) (m m' : Metadata)
      → m.dst_ip ≡ some ip
      → map_ip w ip m ≡ some m'
      → real_address w m'.dst_ip ≡ true
  unfolding map_ip real_address
  map_ip-real ip m m' is e = elim (Option-cases (find_host_by_ip w ip)) [
    | inr (host, found) ↦ ground (arith, map_host-real host m)
    | inl missing ↦ ground arith
  ]

  pub pre_handle_metadata-real :
      (m m' : Metadata)
      → mapping_enabled w ≡ true
      → is_empty m.host ≡ true
      → pre_handle_metadata w m ≡ some m'
      → real_address w m'.dst_ip ≡ true
  unfolding pre_handle_metadata need_lookup_ip real_address
  pre_handle_metadata-real m m' enabled h e = elim (Option-cases (host_to_ip w m).dst_ip) [
    | inl absent ↦ ground (arith, host_to_ip-host w m h)
    | inr (ip, present) ↦
        ground (arith, host_to_ip-host w m h, map_ip-real ip (host_to_ip w m) m' present)
  ]

module _ (w : World) where
  with_process_real :
      (m : Metadata) (o : Option Text)
      → real_address w m.dst_ip ≡ true
      → real_address w (with_process m o).dst_ip ≡ true
  unfolding with_process
  with_process_real m none h = h
  with_process_real m (some p) h = h

  with_ip_real :
      (m : Metadata) (o : Option Ip)
      → real_address w m.dst_ip ≡ true
      → real_address w o ≡ true
      → real_address w (with_ip m o).dst_ip ≡ true
  unfolding with_ip
  with_ip_real m none h k = h
  with_ip_real m (some p) h k = k

module _ (w : World) (hosts_real : (host : Text) → real_address w (search_hosts w host) ≡ true)
    (resolver_real : (host : Text) → real_address w (w.resolve_ip host) ≡ true) where
  prepare-real :
      (r : Rule) (s : Progress)
      → real_address w s.metadata.dst_ip ≡ true
      → real_address w (prepare w r s).metadata.dst_ip ≡ true
  unfolding prepare process_step resolve_step
  prepare-real r s h =
      let k =
        with_ip_real w s.metadata (w.resolve_ip s.metadata.host) h
          (resolver_real s.metadata.host) in
      ground (
        arith,
        h,
        k,
        with_process_real w s.metadata (process_path_of w s.metadata) h,
        with_process_real w (with_ip s.metadata (w.resolve_ip s.metadata.host))
            (process_path_of w (with_ip s.metadata (w.resolve_ip s.metadata.host))) k,
      )

  match_loop-real :
      (st : State) (rules : List Rule) (s : Progress)
      → real_address w s.metadata.dst_ip ≡ true
      → real_address w (match_loop w st rules s).metadata.dst_ip ≡ true
  unfolding match_loop
  match_loop-real st [] s h = h
  match_loop-real st (r ∷ rules) s h =
      elim (Option-cases (choose w st r (prepare w r s).metadata)) [
        | inl miss ↦
            rw (miss, match_loop) (match_loop-real st rules (prepare w r s) (prepare-real r s h))
        | inr (p, hit) ↦ rw (hit, match_loop) (prepare-real r s h)
      ]

  match_start-real :
      (m : Metadata)
      → real_address w m.dst_ip ≡ true
      → real_address w (match_start w m).metadata.dst_ip ≡ true
  unfolding match_start
  match_start-real m h = ground (arith, h, hosts_real m.host)

  pub resolve_metadata-real :
      (st : State) (m : Metadata) (route : Route)
      → real_address w m.dst_ip ≡ true
      → resolve_metadata w st m ≡ some route
      → real_address w route.metadata.dst_ip ≡ true
  unfolding resolve_metadata match
  resolve_metadata-real st m route h e =
      ground (arith, match_loop-real st st.rules (match_start w m) (match_start-real m h))

  dial-real :
      (connects : Proxy → Metadata → Bool) (route : Route) (p : Proxy) (r : Option Rule)
      (dialed : Metadata)
      → real_address w route.metadata.dst_ip ≡ true
      → dial connects route ≡ relayed p r dialed
      → real_address w dialed.dst_ip ≡ true
  unfolding dial pure
  dial-real connects route p r dialed h e = ground arith

  -- With a host mapper on, a connection that came in without a host is never relayed to a fake
  -- address, if no address is fake outside the fake-ip mode and neither the hosts file nor the
  -- resolver answers with a fake address.
  pub handle_tcp-real :
      (connects : Proxy → Metadata → Bool) (st : State) (m : Metadata) (p : Proxy) (r : Option Rule)
      (dialed : Metadata)
      → (fake_ip_enabled w ≡ false → (ip : Ip) → is_fake_ip w ip ≡ false)
      → mapping_enabled w ≡ true
      → is_empty m.host ≡ true
      → handle_tcp w connects st m ≡ relayed p r dialed
      → real_address w dialed.dst_ip ≡ true
  unfolding handle_tcp handle_resolved
  handle_tcp-real connects st m p r dialed none_fake enabled h e =
      elim (Option-cases (pre_handle_metadata w m)) [
        | inl failed ↦ ground arith
        | inr (m', passed) ↦ elim (Option-cases (resolve_metadata w st m')) [
          | inl failed ↦ ground arith
          | inr (route, found) ↦
              dial-real connects route p r dialed
                (resolve_metadata-real st m' route
                  (pre_handle_metadata-real w none_fake m m' enabled h passed) found)
                (ground arith)
        ]
      ]
