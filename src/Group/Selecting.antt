-- ===== src/Group/Selecting.antt =====
-- What a selector does once a proxy is selected.
use clash_flt.Prelude.{
  ℕ, ◌+◌, ◌≤◌, ◌≡◌, ◌⊎◌, inl, inr, refl, sym, ap, subst, Bool, true, false, some, List, [], ◌∷◌,
  ◌++◌, arith, ltb, Option-cases, Bool-cases,
}
use clash_flt.Prelude.Text.{Text, text_eq_iff}
use clash_flt.Adapter.{Ref, Heap}
use clash_flt.Single.{do_single, reset}
use clash_flt.Group.{Provider, touch, get_providers_proxies, all_refs}
use clash_flt.Group.Selector.{Selector, find_name, or_first, select_from, selected_proxy, set}

get_providers_proxies-refs :
    (now : ℕ) (touched : Bool) (providers : List Provider)
    → (get_providers_proxies now touched providers).0 ≡ all_refs providers
unfolding get_providers_proxies all_refs
get_providers_proxies-refs now touched [] = refl
get_providers_proxies-refs now touched (p ∷ providers) =
    ap (λ z. p.proxies ++ z) (get_providers_proxies-refs now touched providers)

get_providers_proxies-kept :
    (now : ℕ) (touched : Bool) (providers : List Provider)
    → all_refs (get_providers_proxies now touched providers).1 ≡ all_refs providers
unfolding get_providers_proxies all_refs touch
get_providers_proxies-kept now true [] = refl
get_providers_proxies-kept now false [] = refl
get_providers_proxies-kept now true (p ∷ providers) =
    ap (λ z. p.proxies ++ z) (get_providers_proxies-kept now true providers)
get_providers_proxies-kept now false (p ∷ providers) =
    ap (λ z. p.proxies ++ z) (get_providers_proxies-kept now false providers)

find_name_sound :
    (h : Heap) (name : Text) (refs : List Ref) (r : Ref)
    → find_name h name refs ≡ some r
    → (h r).name ≡ name
unfolding find_name
find_name_sound h name [] r e = absurd (ground arith)
find_name_sound h name (x ∷ refs) r e = ground (
  arith,
  find_name_sound h name refs r,
  text_eq_iff (h x).name name,
  λ (p : x ≡ r). ap (λ q. (h q).name) p,
)

-- The selector answers with `r`, from its kept result or by the search.
abbrev Answers : Heap → Ref → Selector → Type 0
Answers h r s =
    (s.single.result ≡ some r) × (find_name h s.selected (all_refs s.providers) ≡ some r)

select_from-found :
    (h : Heap) (now : ℕ) (touched : Bool) (s : Selector) (r : Ref)
    → find_name h s.selected (all_refs s.providers) ≡ some r
    → select_from h now touched s ≡ some (r, (get_providers_proxies now touched s.providers).1)
unfolding select_from or_first
select_from-found h now touched s r found = ground (
  arith,
  subst (λ z. find_name h s.selected z ≡ some r)
      (sym (get_providers_proxies-refs now touched s.providers)) found,
)

selected_proxy-kept :
    (h : Heap) (now : ℕ) (touched : Bool) (s : Selector) (r : Ref)
    → ltb now (s.single.last + s.single.wait) ≡ true
    → s.single.result ≡ some r
    → selected_proxy h now touched s ≡ some (r, s)
unfolding selected_proxy do_single
selected_proxy-kept h now touched s r early kept = ground arith

selected_proxy-computed :
    (h : Heap) (now : ℕ) (touched : Bool) (s : Selector) (r : Ref)
    → ltb now (s.single.last + s.single.wait) ≡ false
    → find_name h s.selected (all_refs s.providers) ≡ some r
    → selected_proxy h now touched s
      ≡ some (
        r,
        record s {
          providers = (get_providers_proxies now touched s.providers).1;
          single = record s.single { last = now; result = some r };
        },
      )
unfolding selected_proxy do_single
selected_proxy-computed h now touched s r late found =
    ground (arith, select_from-found h now touched s r found)

selected_proxy-Answers :
    (h : Heap) (now : ℕ) (touched : Bool) (s : Selector) (r : Ref)
    → find_name h s.selected (all_refs s.providers) ≡ some r
    → (s.single.result ≡ some r) ⊎ (ltb now (s.single.last + s.single.wait) ≡ false)
    → (s' : Selector) × (selected_proxy h now touched s ≡ some (r, s')) × Answers h r s'
selected_proxy-Answers h now touched s r found fresh =
    let found' : find_name h s.selected (all_refs (get_providers_proxies now touched s.providers).1)
        ≡ some r =
      subst (λ z. find_name h s.selected z ≡ some r)
        (sym (get_providers_proxies-kept now touched s.providers)) found in
    elim (Bool-cases (ltb now (s.single.last + s.single.wait))) [
      | inr late ↦ (_, selected_proxy-computed h now touched s r late found, (refl, found'))
      | inl early ↦ elim fresh [
        | inl kept ↦ (s, selected_proxy-kept h now touched s r early kept, (kept, found))
        | inr late ↦ absurd (ground arith)
      ]
    ]

set-found :
    (h : Heap) (now : ℕ) (name : Text) (s s' : Selector)
    → set h now name s ≡ (true, s')
    → (r : Ref) × (find_name h name (all_refs s.providers) ≡ some r)
      × (s' ≡ record s { selected = name; single = reset s.single })
unfolding set
set-found h now name s s' e = elim (Option-cases (find_name h name (all_refs s.providers))) [
  | inl missing ↦ absurd (
      ground (
        arith,
        get_providers_proxies-refs now false s.providers,
        ap (λ z. find_name h name z) (get_providers_proxies-refs now false s.providers),
      ))
  | inr (r, found) ↦ (
    r,
    found,
    ground (arith, ap (λ z. find_name h name z) (get_providers_proxies-refs now false s.providers)),
  )
]

-- Once `Set` has accepted a name, the next selection, at any time that is not within the wait of
-- the zero time, is of a proxy with that name, and so is the one after it, at any time.
pub selected_proxy-set :
    (h : Heap) (t0 t1 t2 : ℕ) (touched1 touched2 : Bool) (name : Text) (s s' : Selector)
    → set h t0 name s ≡ (true, s')
    → s.single.wait ≤ t1
    → (r : Ref) × (s1 : Selector) × (s2 : Selector) × ((h r).name ≡ name)
      × (selected_proxy h t1 touched1 s' ≡ some (r, s1))
      × (selected_proxy h t2 touched2 s1 ≡ some (r, s2))
unfolding reset
selected_proxy-set h t0 t1 t2 touched1 touched2 name s s' e late =
    let (r, found, is) = set-found h t0 name s s' e in
    let chosen = record s { selected = name; single = reset s.single } in
    let (s1, one, answers) =
      selected_proxy-Answers h t1 touched1 chosen r found (inr (ground arith)) in
    let (s2, two, rest) = selected_proxy-Answers h t2 touched2 s1 r answers.1 (inl answers.0) in
    (
      r,
      s1,
      s2,
      find_name_sound h name (all_refs s.providers) r found,
      subst (λ z. selected_proxy h t1 touched1 z ≡ some (r, s1)) (sym is) one,
      two,
    )
