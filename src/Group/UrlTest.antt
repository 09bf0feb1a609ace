-- ===== src/Group/UrlTest.antt =====
-- adapter/outboundgroup/urltest.go: the group that uses the proxy of least delay.
use clash_flt.Prelude.{
  ℕ, ◌+◌, ◌%◌, ◌^◌, Bool, true, false, ◌&&◌, ◌||◌, not, Option, none, some, List, [], ◌∷◌, ltb,
  if◌then◌else◌,
}
use clash_flt.Prelude.Text.{Text, text_eq}
use clash_flt.Adapter.{Ref, Heap, last_delay}
use clash_flt.Single.{Single, do_single, new_single}
use clash_flt.Group.{Provider, touch_providers, get_providers_proxies}

pub record UrlTest : Type 0 where
  pub tolerance : ℕ
  pub disable_udp : Bool
  pub fast_node : Option Ref
  pub single : Single (List Ref)
  pub fast_single : Single Ref
  pub providers : List Provider

unfoldable pub proxies : ℕ → Bool → UrlTest → Option (List Ref × UrlTest)
proxies now touched u =
    elim (do_single now (some (get_providers_proxies now touched u.providers)) u.providers
      u.single) [
        | none ↦ none
        | some r ↦ some (r.0.0, record u { providers = r.1.0; single = r.1.1 })
      ]

-- The loop over `proxies[1:]`, from a candidate and its delay.
unfoldable pub fastest : Heap → List Ref → Ref → ℕ → Ref
fastest h [] fast least = fast
fastest h (r ∷ refs) fast least =
    if (h r).alive && ltb (last_delay (h r)) least
    then fastest h refs r (last_delay (h r))
    else fastest h refs fast least

-- `!fastNotExist` after that loop: a proxy with the name of the fast node is among these.
unfoldable pub exists_name : Heap → Text → List Ref → Bool
exists_name h name [] = false
exists_name h name (r ∷ refs) = text_eq (h r).name name || exists_name h name refs

-- Whether the fast node stays: the sum of a delay and the tolerance is a 16-bit number.
unfoldable pub keeps : Heap → ℕ → List Ref → Ref → Ref → Bool
keeps h tolerance rest node fast =
    exists_name h (h node).name rest
    && (h node).alive
    && not (ltb ((last_delay (h fast) + tolerance) % 2 ^ 16) (last_delay (h node)))

unfoldable pub next_node : Heap → ℕ → Option Ref → Ref → List Ref → Ref
next_node h tolerance none first rest = fastest h rest first (last_delay (h first))
next_node h tolerance (some node) first rest =
    let fast = fastest h rest first (last_delay (h first)) in
    if keeps h tolerance rest node fast then node else fast

-- The function that `fast` hands to `fastSingle.Do`, with the group after it.
unfoldable pub choose_fast : Heap → ℕ → Bool → UrlTest → Option (Ref × UrlTest)
choose_fast h now touched u = elim (proxies now touched u) [
  | none ↦ none
  | some r ↦ elim r.0 [
    | [] ↦ none
    | first ∷ rest ↦
        let node = next_node h r.1.tolerance r.1.fast_node first rest in
        some (node, record r.1 { fast_node = some node })
  ]
]

unfoldable pub fast : Heap → ℕ → Bool → UrlTest → Option (Ref × UrlTest)
fast h now touched u = elim (do_single now (choose_fast h now touched u) u u.fast_single) [
  | none ↦ none
  | some r ↦
      let u' = record r.1.0 { fast_single = r.1.1 } in
      some (
        r.0.0,
        if r.0.1 && touched then record u' { providers = touch_providers now u'.providers } else u',
      )
]

unfoldable pub now_name : Heap → ℕ → UrlTest → Option (Text × UrlTest)
now_name h now u = elim (fast h now false u) [ none ↦ none | some r ↦ some ((h r.0).name, r.1) ]

unfoldable pub support_udp : Heap → ℕ → UrlTest → Option (Bool × UrlTest)
support_udp h now u =
    if u.disable_udp
    then some (false, u)
    else elim (fast h now false u) [ none ↦ none | some r ↦ some ((h r.0).support_udp, r.1) ]

unfoldable pub unwrap : Heap → ℕ → UrlTest → Option (Ref × UrlTest)
unwrap h now u = fast h now true u

-- The options set the tolerance, as a 16-bit number.
unfoldable pub new_url_test : ℕ → ℕ → Bool → Option ℕ → List Provider → UrlTest
new_url_test wait fast_wait disable_udp option providers = record {
  tolerance = elim option [ none ↦ 0 | some t ↦ t % 2 ^ 16 ];
  disable_udp = disable_udp;
  fast_node = none;
  single = new_single wait;
  fast_single = new_single fast_wait;
  providers = providers;
}
