-- ===== src/Config/Known.antt =====
-- What a configuration that was read refers to is there.
use clash_flt.Prelude.{
  suc, ◌≡◌, ◌⊎◌, refl, ap, subst, inl, inr, true, List, [], ◌∷◌, arith, All, length, Bool-cases,
}
use clash_flt.Prelude.Text.{Text}
use clash_flt.Picker.{Result, ok, err}
use clash_flt.Metadata.{is_some}
use clash_flt.Rule.{Oracle, Rule, adapter}
use clash_flt.Rule.Parse.{Parsed, parse_rule}
use clash_flt.Rule.Meaning.{adapter-parse_rule}
use clash_flt.Tunnel.{Proxy, lookup_proxy}
use clash_flt.Config.Rules.{
  Line, line_of, as_checked, rule_of, parse_line, parse_rules, split, trim_arr, trim_spaces,
}

pub Result-cases :
    {E A : Type 0} (r : Result E A) → ((a : A) × (r ≡ ok a)) ⊎ ((e : E) × (r ≡ err e))
Result-cases (ok a) = inl (a, refl)
Result-cases (err e) = inr (e, refl)

as_checked-parse_rule :
    (o : Oracle) (tp payload target : Text) (params : List Text) (r : Rule)
    → as_checked (parse_rule o tp payload target params) ≡ ok r
    → adapter r ≡ target
unfolding as_checked
as_checked-parse_rule o tp payload target params r e =
    adapter-parse_rule o tp payload target params r
      (parsed (parse_rule o tp payload target params) e)
  where
    parsed : (p : Parsed) → as_checked p ≡ ok r → p ≡ Parsed.ok r
    parsed (Parsed.ok s) same = ground arith
    parsed (Parsed.err f) same = absurd (ground arith)

module _ (o : Oracle) (proxies : List (Text × Proxy)) where
  rule_of-known :
      (l : Line) (r : Rule)
      → rule_of o proxies l ≡ ok r
      → is_some (lookup_proxy (adapter r) proxies) ≡ true
  unfolding rule_of
  rule_of-known l r e = elim (Bool-cases (is_some (lookup_proxy l.target proxies))) [
    | inl known ↦
        let target : adapter r ≡ l.target =
          as_checked-parse_rule o (trim_spaces l.tp) l.payload l.target (trim_arr l.params) r
            (ground arith) in
        rw target known
    | inr unknown ↦ absurd (ground arith)
  ]

  parse_line-known :
      (line : Text) (r : Rule)
      → parse_line o proxies line ≡ ok r
      → is_some (lookup_proxy (adapter r) proxies) ≡ true
  unfolding parse_line
  parse_line-known line r e = elim (Result-cases (line_of (trim_arr (split b',' line)))) [
    | inl (l, read) ↦ rule_of-known l r (ground arith)
    | inr (f, failed) ↦ absurd (ground arith)
  ]

  -- A list of lines that `parseRules` accepts gives one rule for each line, and the adapter of each
  -- rule is a known proxy.
  pub parse_rules-known :
      (lines : List Text) (rules : List Rule)
      → parse_rules o proxies lines ≡ ok rules
      → (length rules ≡ length lines)
        × All (λ r. is_some (lookup_proxy (adapter r) proxies) ≡ true) rules
  unfolding parse_rules
  parse_rules-known [] rules e =
      let none_left : [] ≡ rules = ground arith in
      subst (λ l. (length l ≡ 0) × All (λ s. is_some (lookup_proxy (adapter s) proxies) ≡ true) l)
        none_left (refl, tt)
  parse_rules-known (line ∷ lines) rules e = elim (Result-cases (parse_line o proxies line)) [
    | inr (f, failed) ↦ absurd (ground arith)
    | inl (r, read) ↦ elim (Result-cases (parse_rules o proxies lines)) [
      | inr (f, failed) ↦ absurd (ground arith)
      | inl (rest, reads) ↦
          let (same, known) = parse_rules-known lines rest reads in
          let whole : r ∷ rest ≡ rules = ground arith in
          subst
            (λ l.
              (length l ≡ length (line ∷ lines))
              × All (λ s. is_some (lookup_proxy (adapter s) proxies) ≡ true) l)
            whole (ap suc same, (parse_line-known line r read, known))
    ]
  ]
