-- ===== src/Config/Blame.antt =====
-- Which errors the parser of a group can give, if the proxies that the group names are there.
use clash_flt.Prelude.{
  ◌≡◌, refl, subst, inl, inr, Bool, true, false, ◌||◌, Option, none, some, List, [], ◌∷◌,
  if◌then◌else◌, arith, All, Bool-cases, Option-cases,
}
use clash_flt.Prelude.Text.{Text, codes, text_eq}
use clash_flt.Picker.{ok, err}
use clash_flt.Metadata.{is_some}
use clash_flt.Dns.Resolver.{is_empty_list}
use clash_flt.Config.Sorted.{name_of, uses}
use clash_flt.Config.Checked.{
  Checked, ConfigError, unknown_proxy, bad_group_format, compatible_provider, unknown_strategy,
  group_type, or_error, ◌>>=◌,
}
use clash_flt.Config.Settings.{ensure}
use clash_flt.Config.Groups.{
  GroupCommonOption, RawGroup, url_test, selector, fallback, relay, load_balance, dag_option,
  Provider, Providers, Group, lookup, get_proxies, own_provider, get_providers, add_proxies,
  add_used, load_balance_of, group_kind, parse_proxy_group,
}

-- The error names a proxy that is not there.
unfoldable pub blames : ConfigError → Bool
blames (unknown_proxy n) = true
blames _ = false

module _ {A : Type 0} where
  abbrev pub Blameless : Checked A → Type 0
  Blameless r = (e : ConfigError) → r ≡ err e → blames e ≡ false

  Blameless-or_error :
      (o : Option A) (e : ConfigError) → blames e ≡ false → Blameless (or_error o e)
  Blameless-or_error none e b f h = subst (λ x. blames x ≡ false) (ground arith) b
  Blameless-or_error (some a) e b f h = absurd (ground arith)

  pub Blameless-ok : (a : A) → Blameless (ok a)
  Blameless-ok a e h = absurd (ground arith)

  Blameless-err : (e : ConfigError) → blames e ≡ false → Blameless (err e)
  Blameless-err e b f h = subst (λ x. blames x ≡ false) (ground arith) b

pub Blameless-bind :
    {A B : Type 0} (r : Checked A) (f : A → Checked B)
    → Blameless r
    → ((a : A) → r ≡ ok a → Blameless (f a))
    → Blameless (r >>= f)
Blameless-bind (ok a) f first next e h = next a refl e h
Blameless-bind (err x) f first next e h =
    subst (λ y. blames y ≡ false) (ground arith) (first x refl)

Blameless-if :
    {A : Type 0} (b : Bool) {r s : Checked A}
    → Blameless r
    → Blameless s
    → Blameless (if b then r else s)
Blameless-if true free free' = free
Blameless-if false free free' = free'

pub Blameless-ensure : (b : Bool) (e : ConfigError) → blames e ≡ false → Blameless (ensure b e)
unfolding ensure
Blameless-ensure true e free = Blameless-ok tt
Blameless-ensure false e free = Blameless-err e free

module _ {P : Type 0} where
  Blameless-get_proxies :
      (mapping : List (Text × P)) (names : List Text)
      → All (λ n. is_some (lookup n mapping) ≡ true) names
      → Blameless (get_proxies mapping names)
  unfolding get_proxies
  Blameless-get_proxies mapping [] known = Blameless-ok []
  Blameless-get_proxies mapping (n ∷ names) known = elim (Option-cases (lookup n mapping)) [
    | inl missing ↦ absurd (ground arith)
    | inr (p, there) ↦ rw there (
        Blameless-bind (get_proxies mapping names) (λ ps. ok (p ∷ ps))
          (Blameless-get_proxies mapping names known.1) (λ ps h. Blameless-ok (p ∷ ps)))
  ]

  Blameless-own_provider : (p : Provider P) → Blameless (own_provider p)
  unfolding own_provider blames
  Blameless-own_provider p =
      Blameless-if p.compatible (Blameless-err compatible_provider refl) (Blameless-ok p)

  Blameless-get_providers :
      (mapping : Providers P) (names : List Text) → Blameless (get_providers mapping names)
  unfolding get_providers own_provider blames
  Blameless-get_providers mapping [] = Blameless-ok []
  Blameless-get_providers mapping (n ∷ names) =
      Blameless-bind _ _ (Blameless-or_error (lookup n mapping) _ refl) λ found h.
        Blameless-bind (own_provider found) _ (Blameless-own_provider found) λ p h'.
          Blameless-bind (get_providers mapping names) _ (Blameless-get_providers mapping names)
            (λ ps h''. Blameless-ok (p ∷ ps))

  Blameless-add_proxies :
      (o : GroupCommonOption) (mapping : List (Text × P)) (providers : Providers P)
      → All (λ n. is_some (lookup n mapping) ≡ true) o.proxies
      → Blameless (add_proxies o mapping providers)
  unfolding add_proxies blames
  Blameless-add_proxies o mapping providers known = elim (Bool-cases (is_empty_list o.proxies)) [
    | inl empty ↦ rw empty (Blameless-ok ([], providers))
    | inr some_left ↦ rw some_left (
        Blameless-bind _ _ (Blameless-get_proxies mapping o.proxies known) λ ps h.
          Blameless-bind _ _ (Blameless-ensure _ _ refl)
            λ fresh h'. Blameless-bind _ _ (Blameless-ensure _ _ refl) λ checks h''. Blameless-ok _)
  ]

  Blameless-add_used :
      (o : GroupCommonOption) (providers : Providers P) → Blameless (add_used o providers)
  unfolding add_used
  Blameless-add_used o providers = elim (Bool-cases (is_empty_list o.use_providers)) [
    | inl empty ↦ rw empty (Blameless-ok [])
    | inr some_left ↦ rw some_left (
        Blameless-bind _ _ (Blameless-get_providers providers o.use_providers)
          λ l h. Blameless-ok _)
  ]

Blameless-group_kind : (g : RawGroup) (o : GroupCommonOption) → Blameless (group_kind g o)
unfolding group_kind load_balance_of blames
Blameless-group_kind g o = Blameless-if (text_eq o.tp (codes "url-test")) (Blameless-ok url_test) (
    Blameless-if (text_eq o.tp (codes "select")) (Blameless-ok selector) (
      Blameless-if (text_eq o.tp (codes "fallback")) (Blameless-ok fallback) (
        Blameless-if (text_eq o.tp (codes "load-balance")) (strategy g.strategy) (
          Blameless-if (text_eq o.tp (codes "relay")) (Blameless-ok relay)
            (Blameless-err group_type refl)))))
  where
    strategy : (t : Option Text) → Blameless (load_balance_of t)
    strategy none = Blameless-ok (load_balance (codes "consistent-hashing"))
    strategy (some t) =
        Blameless-if (text_eq t (codes "consistent-hashing") || text_eq t (codes "round-robin"))
          (Blameless-ok (load_balance t)) (Blameless-err unknown_strategy refl)

pub or_error-ok :
    {A : Type 0} (o : Option A) (e : ConfigError) (a : A) → or_error o e ≡ ok a → o ≡ some a
or_error-ok none e a h = absurd (ground arith)
or_error-ok (some b) e a h = ground arith

pub bind-ok :
    {A B : Type 0} (r : Checked A) (f : A → Checked B) (b : B)
    → (r >>= f) ≡ ok b
    → (a : A) × (r ≡ ok a) × (f a ≡ ok b)
bind-ok (ok a) f b h = (a, refl, h)
bind-ok (err e) f b h = absurd (ground arith)

option-uses :
    (g : RawGroup) (o : GroupCommonOption)
    → g.option ≡ some o
    → (uses dag_option g ≡ o.proxies) × (name_of dag_option g ≡ o.name)
unfolding dag_option
option-uses g o e = rw e (refl, refl)

module _ {P : Type 0} (compiles : Text → Bool) where
  pub Blameless-parse_proxy_group :
      (g : RawGroup) (mapping : List (Text × P)) (providers : Providers P)
      → All (λ n. is_some (lookup n mapping) ≡ true) (uses dag_option g)
      → Blameless (parse_proxy_group compiles g mapping providers)
  unfolding parse_proxy_group dag_option blames
  Blameless-parse_proxy_group g mapping providers known =
      Blameless-bind _ _ (Blameless-or_error g.option _ refl) λ o is.
        Blameless-bind _ _ (Blameless-ensure _ _ refl) λ named h1.
          Blameless-bind _ _ (Blameless-ensure _ _ refl) λ filter h2.
            Blameless-bind _ _ (Blameless-ensure _ _ refl) λ some_source h3.
              Blameless-bind _ _
                (Blameless-add_proxies o mapping providers (
                  subst (All (λ n. is_some (lookup n mapping) ≡ true))
                    (option-uses g o (or_error-ok g.option _ o is)).0 known))
                λ own h4.
                  Blameless-bind _ _ (Blameless-add_used o own.1) λ used h5.
                    Blameless-bind _ _ (Blameless-group_kind g o) λ kind h6. Blameless-ok _

  -- The group has the name of its mapping.
  pub parse_proxy_group-name :
      (g : RawGroup) (mapping : List (Text × P)) (providers : Providers P)
      (r : Group P × Providers P)
      → parse_proxy_group compiles g mapping providers ≡ ok r
      → r.0.name ≡ name_of dag_option g
  unfolding parse_proxy_group dag_option
  parse_proxy_group-name g mapping providers r e =
      let (o, is, e1) = bind-ok (or_error g.option bad_group_format) _ r e in
      let (named, is1, e2) = bind-ok (ensure _ _) _ r e1 in
      let (filter, is2, e3) = bind-ok (ensure _ _) _ r e2 in
      let (some_source, is3, e4) = bind-ok (ensure _ _) _ r e3 in
      let (own, is4, e5) = bind-ok (add_proxies o mapping providers) _ r e4 in
      let (used, is5, e6) = bind-ok (add_used o own.1) _ r e5 in
      let (kind, is6, e7) = bind-ok (group_kind g o) _ r e6 in
      let same : name_of dag_option g ≡ o.name =
        (option-uses g o (or_error-ok g.option _ o is)).1 in
      ground arith
