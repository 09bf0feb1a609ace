-- ===== src/Tunnel/Dns.antt =====
-- When routing may resolve a name: what `match` can change of the destination, and the catch-all.
use clash_flt.Prelude.{
  ◌≡◌, refl, sym, subst, ◌∙◌, ◌⊎◌, inl, inr, true, false, Option, none, some, List, [], ◌∷◌, ◌++◌,
  arith, Option-cases, All,
}
use clash_flt.Prelude.Text.{Text}
use clash_flt.Metadata.{Metadata, Ip, is_some}
use clash_flt.Rule.{Rule, adapter, should_resolve_ip, matches, match_rule}
use clash_flt.Tunnel.{
  World, State, Proxy, Progress, lookup_proxy, should_resolve, with_ip, resolve_step,
  process_path_of, with_process, process_step, prepare, usable, choose, match_loop, match_start,
  match,
}

with_process_dst : (m : Metadata) (o : Option Text) → (with_process m o).dst_ip ≡ m.dst_ip
unfolding with_process
with_process_dst m none = refl
with_process_dst m (some p) = refl

with_process_host : (m : Metadata) (o : Option Text) → (with_process m o).host ≡ m.host
unfolding with_process
with_process_host m none = refl
with_process_host m (some p) = refl

with_ip_host : (m : Metadata) (o : Option Ip) → (with_ip m o).host ≡ m.host
unfolding with_ip
with_ip_host m none = refl
with_ip_host m (some ip) = refl

module _ (w : World) (st : State) where
  -- A rule that resolves nothing, or a destination that is known.
  abbrev pub Quiet : Progress → Rule → Type 0
  Quiet s r = (should_resolve_ip r ≡ false) ⊎ (is_some s.metadata.dst_ip ≡ true)

  resolve_step_dst :
      (r : Rule) (s : Progress)
      → Quiet s r
      → (resolve_step w r s).metadata.dst_ip ≡ s.metadata.dst_ip
  unfolding resolve_step should_resolve
  resolve_step_dst r s (inl h) = ground arith
  resolve_step_dst r s (inr h) = ground arith

  process_step_dst :
      (r : Rule) (s : Progress) → (process_step w r s).metadata.dst_ip ≡ s.metadata.dst_ip
  unfolding process_step
  process_step_dst r s = ground (arith, with_process_dst s.metadata (process_path_of w s.metadata))

  prepare_dst :
      (r : Rule) (s : Progress) → Quiet s r → (prepare w r s).metadata.dst_ip ≡ s.metadata.dst_ip
  unfolding prepare
  prepare_dst r s q = process_step_dst r (resolve_step w r s) ∙ resolve_step_dst r s q

  resolve_step_host :
      (r : Rule) (s : Progress) → (resolve_step w r s).metadata.host ≡ s.metadata.host
  unfolding resolve_step
  resolve_step_host r s = ground (arith, with_ip_host s.metadata (w.resolve_ip s.metadata.host))

  process_step_host :
      (r : Rule) (s : Progress) → (process_step w r s).metadata.host ≡ s.metadata.host
  unfolding process_step
  process_step_host r s =
      ground (arith, with_process_host s.metadata (process_path_of w s.metadata))

  prepare_host : (r : Rule) (s : Progress) → (prepare w r s).metadata.host ≡ s.metadata.host
  unfolding prepare
  prepare_host r s = process_step_host r (resolve_step w r s) ∙ resolve_step_host r s

  Quiet-prepare : (r q : Rule) (s : Progress) → Quiet s r → Quiet s q → Quiet (prepare w r s) q
  Quiet-prepare r q s h (inl e) = inl e
  Quiet-prepare r q s h (inr e) = inr (subst (λ o. is_some o ≡ true) (sym (prepare_dst r s h)) e)

  Quiet-All :
      (r : Rule) (rules : List Rule) (s : Progress)
      → Quiet s r
      → All (Quiet s) rules
      → All (Quiet (prepare w r s)) rules
  Quiet-All r [] s h all = tt
  Quiet-All r (q ∷ rules) s h (one, all) = (Quiet-prepare r q s h one, Quiet-All r rules s h all)

  match_loop-Quiet :
      (rules : List Rule) (s : Progress)
      → All (Quiet s) rules
      → (match_loop w st rules s).metadata.dst_ip ≡ s.metadata.dst_ip
  unfolding match_loop
  match_loop-Quiet [] s q = refl
  match_loop-Quiet (r ∷ rules) s (h, q) =
      elim (Option-cases (choose w st r (prepare w r s).metadata)) [
        | inl miss ↦
            rw (miss, match_loop)
              (match_loop-Quiet rules (prepare w r s) (Quiet-All r rules s h q) ∙ prepare_dst r s h)
        | inr (p, hit) ↦ rw (hit, match_loop) (prepare_dst r s h)
      ]

  match_loop_host :
      (rules : List Rule) (s : Progress) → (match_loop w st rules s).metadata.host ≡ s.metadata.host
  unfolding match_loop
  match_loop_host [] s = refl
  match_loop_host (r ∷ rules) s = elim (Option-cases (choose w st r (prepare w r s).metadata)) [
    | inl miss ↦ rw (miss, match_loop) (match_loop_host rules (prepare w r s) ∙ prepare_host r s)
    | inr (p, hit) ↦ rw (hit, match_loop) (prepare_host r s)
  ]

  -- If each rule resolves nothing, or the hosts file or the connection gives the destination, then
  -- the route has the destination address that `match` started with: no name is resolved on the
  -- way.
  dst_ip-match :
      (m : Metadata)
      → All (Quiet (match_start w m)) st.rules
      → (match w st m).metadata.dst_ip ≡ (match_start w m).metadata.dst_ip
  unfolding match
  dst_ip-match m q = match_loop-Quiet st.rules (match_start w m) q

  -- `match` never changes the host.
  host-match : (m : Metadata) → (match w st m).metadata.host ≡ m.host
  unfolding match match_start
  host-match m = match_loop_host st.rules (match_start w m) ∙ ground arith

  choose-match :
      (a : Text) (p : Proxy) (m : Metadata)
      → lookup_proxy a st.proxies ≡ some p
      → p.support_udp ≡ true
      → choose w st (match_rule a) m ≡ some p
  unfolding choose matches usable adapter
  choose-match a p m known carries = ground arith

  match_loop-catch_all :
      (before after : List Rule) (a : Text) (p : Proxy) (s : Progress)
      → lookup_proxy a st.proxies ≡ some p
      → p.support_udp ≡ true
      → is_some (match_loop w st (before ++ match_rule a ∷ after) s).rule ≡ true
  unfolding match_loop
  match_loop-catch_all [] after a p s known carries =
      rw (choose-match a p (prepare w (match_rule a) s).metadata known carries, match_loop) refl
  match_loop-catch_all (r ∷ before) after a p s known carries =
      elim (Option-cases (choose w st r (prepare w r s).metadata)) [
        | inl miss ↦
            rw (miss, match_loop)
              (match_loop-catch_all before after a p (prepare w r s) known carries)
        | inr (q, hit) ↦ rw (hit, match_loop) refl
      ]

  -- If the rules have a MATCH rule whose adapter is a known proxy that carries UDP, then `match`
  -- decides by a rule: the fallback to "DIRECT" is not taken.
  rule-match :
      (m : Metadata) (before after : List Rule) (a : Text) (p : Proxy)
      → st.rules ≡ before ++ match_rule a ∷ after
      → lookup_proxy a st.proxies ≡ some p
      → p.support_udp ≡ true
      → is_some (match w st m).rule ≡ true
  unfolding match
  rule-match m before after a p e known carries =
      subst (λ rules. is_some (match_loop w st rules (match_start w m)).rule ≡ true) (sym e)
        (match_loop-catch_all before after a p (match_start w m) known carries)
