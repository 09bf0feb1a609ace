-- ===== src/Tunnel/Mode.antt =====
-- The modes by name, and that a known "DIRECT" and "GLOBAL" are all the handler needs to have a proxy.
use clash_flt.Prelude.{
  ◌≡◌, ◌≢◌, ◌↔◌, refl, ap, inl, inr, Bool, true, some, List, [], ◌∷◌, arith, Option-cases,
}
use clash_flt.Prelude.Text.{Text, codes, text_eq, text_eq_iff, to_lower}
use clash_flt.Metadata.{Metadata, is_some}
use clash_flt.Rule.{Rule}
use clash_flt.Tunnel.{
  TunnelMode, global, rule, direct, mode_string, mode_mapping, unmarshal_mode, World, State, Proxy,
  Progress, Route, nil_proxy, lookup_proxy, prepare, choose, match_loop, match_start, match,
  pre_handle_metadata, resolve_metadata, dial, handle_resolved, handle_tcp,
}

mode_mapping-mode_string : (m : TunnelMode) → mode_mapping (mode_string m) ≡ some m
unfolding mode_mapping mode_string text_eq
mode_mapping-mode_string global = refl
mode_mapping-mode_string rule = refl
mode_mapping-mode_string direct = refl

mode_mapping_sound : (t : Text) (m : TunnelMode) → mode_mapping t ≡ some m → t ≡ mode_string m
unfolding mode_mapping
mode_mapping_sound t m h = ground (
  arith,
  text_eq_iff t (mode_string global),
  text_eq_iff t (mode_string rule),
  text_eq_iff t (mode_string direct),
  λ (p : global ≡ m). ap mode_string p,
  λ (p : rule ≡ m). ap mode_string p,
  λ (p : direct ≡ m). ap mode_string p,
)

-- A text is read as a mode exactly if it is the mode's name, in letters of any case.
unmarshal_mode_iff :
    (t : Text) (m : TunnelMode) → (unmarshal_mode t ≡ some m) ↔ (to_lower t ≡ mode_string m)
unfolding unmarshal_mode
unmarshal_mode_iff t m = (mode_mapping_sound (to_lower t) m, λ e. rw e (mode_mapping-mode_string m))

module _ (w : World) (st : State) where
  match_loop-proxy :
      (rules : List Rule) (s : Progress)
      → is_some (lookup_proxy (codes "DIRECT") st.proxies) ≡ true
      → is_some (match_loop w st rules s).proxy ≡ true
  unfolding match_loop
  match_loop-proxy [] s known = known
  match_loop-proxy (r ∷ rules) s known =
      elim (Option-cases (choose w st r (prepare w r s).metadata)) [
        | inl miss ↦ rw (miss, match_loop) (match_loop-proxy rules (prepare w r s) known)
        | inr (p, hit) ↦ rw (hit, match_loop) refl
      ]

  resolve_metadata-proxy :
      (m : Metadata) (route : Route)
      → is_some (lookup_proxy (codes "DIRECT") st.proxies) ≡ true
      → is_some (lookup_proxy (codes "GLOBAL") st.proxies) ≡ true
      → resolve_metadata w st m ≡ some route
      → is_some route.proxy ≡ true
  unfolding resolve_metadata match
  resolve_metadata-proxy m route d g e =
      ground (arith, match_loop-proxy st.rules (match_start w m) d)

  -- If the proxies "DIRECT" and "GLOBAL" are known, then no TCP connection makes the handler call a
  -- method of a nil proxy.
  pub handle_tcp-proxy :
      (connects : Proxy → Metadata → Bool) (m : Metadata)
      → is_some (lookup_proxy (codes "DIRECT") st.proxies) ≡ true
      → is_some (lookup_proxy (codes "GLOBAL") st.proxies) ≡ true
      → handle_tcp w connects st m ≢ nil_proxy
  unfolding handle_tcp handle_resolved dial
  handle_tcp-proxy connects m d g e = elim (Option-cases (pre_handle_metadata w m)) [
    | inl failed ↦ ground arith
    | inr (m', passed) ↦ elim (Option-cases (resolve_metadata w st m')) [
      | inl failed ↦ ground arith
      | inr (route, found) ↦ ground (arith, resolve_metadata-proxy m' route d g found)
    ]
  ]
