-- ===== src/Tunnel/Replies.antt =====
-- UDP packets to a fake address: where they go, and whom the replies seem to come from.
use clash_flt.Prelude.{
  ◌≡◌, ◌∙◌, ◌⊎◌, refl, sym, ap, inl, inr, Bool, true, false, Option, none, some, List, [], ◌∷◌, map,
  arith, if◌then◌else◌, Option-cases, Bool-cases,
}
use clash_flt.Prelude.Text.{Text}
use clash_flt.Metadata.{Metadata, Ip, resolved, pure}
use clash_flt.Rule.{Rule}
use clash_flt.Tunnel.{World, State, Proxy, Route, is_fake_ip, pre_handle_metadata, resolve_metadata}
use clash_flt.Tunnel.Udp.{
  is_exist_fake_ip, addr_from_slice, opt_addr, addr_eq, Prepared, not_valid, missing_record,
  unresolved, ready, fake_addr, with_first, local_resolve, prepare_udp, Dialed, listening, listen,
  dial_prepared, handle_udp, Datagram, swap_from, handle_udp_to_local,
}

Prepared-cases :
    (p : Prepared)
    → ((m : Metadata) × (f : Option Ip) × (p ≡ ready m f))
      ⊎ ((w : World) (connects : Proxy → Metadata → Bool) (st : State) (q : Proxy) (r : Option Rule)
            (m : Metadata) (o f : Option Ip)
          → dial_prepared w connects st p ≡ listening q r m o f
          → ⊥)
unfolding dial_prepared
Prepared-cases (ready m f) = inl (m, f, refl)
Prepared-cases not_valid = inr (λ w connects st q r m o f e. absurd (ground arith))
Prepared-cases missing_record = inr (λ w connects st q r m o f e. absurd (ground arith))
Prepared-cases unresolved = inr (λ w connects st q r m o f e. absurd (ground arith))

abbrev ready_metadata : Metadata → Prepared → Metadata
ready_metadata m0 (ready m f) = m
ready_metadata m0 _ = m0

abbrev ready_fake : Prepared → Option Ip
ready_fake (ready m f) = f
ready_fake _ = none

abbrev listening_parts : Metadata → Dialed → Metadata × Option Ip × Option Ip
listening_parts m0 (listening p r m o f) = (m, o, f)
listening_parts m0 _ = (m0, none, none)

module _ (w : World) (lookup_ip : Text → Option (List Ip)) where
  -- The lookups of a host never give a fake address.
  abbrev pub LooksUpReal : Type 0
  LooksUpReal =
      (host : Text) (ip : Ip) (ips : List Ip)
      → lookup_ip host ≡ some (ip ∷ ips)
      → is_fake_ip w ip ≡ false

  -- What a prepared packet has.
  abbrev Ready : Metadata → Metadata → Option Ip → Type 0
  Ready m m' f =
      (m1 : Metadata) × (pre_handle_metadata w m ≡ some m1)
      × (f ≡ fake_addr w m)
      × ((m' ≡ m1)
          ⊎ ((host : Text) × (ip : Ip) × (ips : List Ip) × (lookup_ip host ≡ some (ip ∷ ips))
              × (m'.dst_ip ≡ some ip)))

  looked_up :
      (m m' : Metadata) (f f' : Option Ip) (found : Option (List Ip))
      → with_first m f found ≡ ready m' f'
      → (f' ≡ f) × ((ip : Ip) × (ips : List Ip) × (found ≡ some (ip ∷ ips)) × (m'.dst_ip ≡ some ip))
  unfolding with_first
  looked_up m m' f f' none e = absurd (ground arith)
  looked_up m m' f f' (some []) e = absurd (ground arith)
  looked_up m m' f f' (some (ip ∷ ips)) e =
      (sym (ap ready_fake e), (ip, ips, refl, sym (ap (λ p. (ready_metadata m p).dst_ip) e)))

  prepare_udp-Ready :
      (m m' : Metadata) (f : Option Ip) → prepare_udp w lookup_ip m ≡ ready m' f → Ready m m' f
  unfolding prepare_udp local_resolve
  prepare_udp-Ready m m' f e = elim (Option-cases (pre_handle_metadata w m)) [
    | inl failed ↦ absurd (ground arith)
    | inr (m1, passed) ↦ elim (Bool-cases (resolved m1)) [
      | inl known ↦
          let same : ready m1 (fake_addr w m) ≡ ready m' f = ground arith in
          (m1, passed, sym (ap ready_fake same), inl (sym (ap (ready_metadata m) same)))
      | inr unknown ↦
          let same : with_first m1 (fake_addr w m) (lookup_ip m1.host) ≡ ready m' f =
            ground arith in
          let (fake, (ip, ips, found, dst)) =
            looked_up m1 m' (fake_addr w m) f (lookup_ip m1.host) same in
          (m1, passed, fake, inr (m1.host, ip, ips, found, dst))
    ]
  ]

  module _ (connects : Proxy → Metadata → Bool) (st : State) where
    -- What a packet that listens went through.
    abbrev Listened : Metadata → Metadata → Option Ip → Option Ip → Type 0
    Listened m final o f =
        (m' : Metadata) × (route : Route) × (prepare_udp w lookup_ip m ≡ ready m' f)
        × (resolve_metadata w st m' ≡ some route)
        × (final ≡ route.metadata)
        × (o ≡ opt_addr final.dst_ip)

    listen-route :
        (route : Route) (p : Proxy) (r : Option Rule) (final : Metadata) (o f f' : Option Ip)
        → listen connects f route ≡ listening p r final o f'
        → (f' ≡ f) × (final ≡ route.metadata) × (o ≡ opt_addr final.dst_ip)
    unfolding listen
    listen-route route p r final o f f' e = elim (Option-cases route.proxy) [
      | inl missing ↦ absurd (ground arith)
      | inr (q, there) ↦ elim (Bool-cases (connects q (pure route.metadata))) [
        | inr refused ↦ absurd (ground arith)
        | inl accepted ↦
            let same : listening q route.rule route.metadata (opt_addr route.metadata.dst_ip) f
                ≡ listening p r final o f' =
              ground arith in
            let parts = sym (ap (listening_parts final) same) in
            let moved : final ≡ route.metadata = ap (λ x. x.0) parts in
            (
              ap (λ x. x.2) parts,
              moved,
              ap (λ x. x.1) parts ∙ sym (ap (λ m. opt_addr m.dst_ip) moved),
            )
      ]
    ]

    handle_udp-Listened :
        (m final : Metadata) (p : Proxy) (r : Option Rule) (o f : Option Ip)
        → handle_udp w lookup_ip connects st m ≡ listening p r final o f
        → Listened m final o f
    unfolding handle_udp dial_prepared
    handle_udp-Listened m final p r o f e = elim (Prepared-cases (prepare_udp w lookup_ip m)) [
      | inr stops ↦ absurd (stops w connects st p r final o f e)
      | inl (m', f', prepared) ↦ elim (Option-cases (resolve_metadata w st m')) [
        | inl failed ↦ absurd (ground arith)
        | inr (route, routed) ↦
            let listened : listen connects f' route ≡ listening p r final o f = ground arith in
            let (fake, same, dst) = listen-route route p r final o f' f listened in
            (m', route, prepared ∙ ap (ready m') (sym fake), routed, same, dst)
      ]
    ]

    handle_udp_to_local-all :
        (o f : Option Ip) (reads : List Datagram)
        → handle_udp_to_local (λ d. true) o f (map some reads)
          ≡ map (λ d. (d.0, swap_from o f d.1)) reads
    unfolding handle_udp_to_local
    handle_udp_to_local-all o f [] = refl
    handle_udp_to_local-all o f ((bytes, from) ∷ reads) =
        ap (λ (l : List Datagram). (bytes, swap_from o f from) ∷ l)
          (handle_udp_to_local-all o f reads)

    -- After a packet to an address that the pool gave out has opened a connection, the datagrams
    -- that come back are written to the client in order and with their bytes; those from the
    -- address that the packet went to seem to come from the fake address, and all others keep their
    -- sender. The writes succeed, and the fake address has four bytes or is IPv6.
    pub handle_udp_to_local-handle_udp :
        (m final : Metadata) (p : Proxy) (r : Option Rule) (o f : Option Ip) (fake : Ip)
        (reads : List Datagram)
        → handle_udp w lookup_ip connects st m ≡ listening p r final o f
        → m.dst_ip ≡ some fake
        → is_exist_fake_ip w fake ≡ true
        → addr_from_slice fake ≡ some fake
        → handle_udp_to_local (λ d. true) o f (map some reads)
          ≡ map
              (λ d. (
                d.0,
                if addr_eq (opt_addr final.dst_ip) (addr_from_slice d.1.0)
                    then (fake, d.1.1)
                    else d.1,
              ))
              reads
    unfolding fake_addr swap_from
    handle_udp_to_local-handle_udp m final p r o f fake reads e dst exist whole =
        let (m', route, prepared, routed, same, back) = handle_udp-Listened m final p r o f e in
        let (m1, passed, faked, way) = prepare_udp-Ready m m' f prepared in
        let f_is : f ≡ some fake = ground arith in
        handle_udp_to_local-all o f reads ∙ rw (f_is, back) refl
