-- ===== src/Config/Rules.antt =====
-- config/config.go: the rules, the hosts and the users; component/auth/auth.go.
use mathlib.Core.List.{reverse}
use clash_flt.Prelude.{ℕ, Bool, false, Option, none, some, List, [], ◌∷◌, map, ◌==◌, if◌then◌else◌}
use clash_flt.Prelude.Text.{Text, codes, text_eq}
use clash_flt.Picker.{ok, err}
use clash_flt.Metadata.{Ip, is_some}
use clash_flt.Trie
use clash_flt.Trie.{Node}
use clash_flt.Rule.{Oracle, Rule}
use clash_flt.Rule.Parse.{Parsed, parse_rule}
use clash_flt.Tunnel.{Proxy, lookup_proxy}
use clash_flt.Config.Checked.{Checked, invalid_line, unknown_proxy, bad_rule, invalid_ip, ◌>>=◌}

-- `strings.Split` at one byte: the parts before and after each.
unfoldable pub split : ℕ → Text → List Text
split sep [] = [] ∷ []
split sep (c ∷ s) = elim (split sep s) [
  | [] ↦ []
  | part ∷ parts ↦ if c == sep then [] ∷ part ∷ parts else (c ∷ part) ∷ parts
]

-- `strings.Trim(s, " ")`
unfoldable pub drop_spaces : Text → Text
drop_spaces [] = []
drop_spaces (c ∷ s) = if c == b' ' then drop_spaces s else c ∷ s

unfoldable pub trim_spaces : Text → Text
trim_spaces s = reverse (drop_spaces (reverse (drop_spaces s)))

unfoldable pub trim_arr : List Text → List Text
trim_arr arr = map trim_spaces arr

-- The type, the payload, the target and the parameters of a line.
pub record Line : Type 0 where
  pub tp : Text
  pub payload : Text
  pub target : Text
  pub params : List Text

unfoldable pub line_of : List Text → Checked Line
line_of [] = err invalid_line
line_of (tp ∷ []) = err invalid_line
line_of (tp ∷ target ∷ []) = ok (record { tp = tp; payload = []; target = target; params = [] })
line_of (tp ∷ payload ∷ target ∷ params) =
    ok (record { tp = tp; payload = payload; target = target; params = params })

unfoldable pub as_checked : Parsed → Checked Rule
as_checked (Parsed.ok r) = ok r
as_checked (Parsed.err e) = err (bad_rule e)

-- The rule of a line whose target is known. The second trimming of the parts changes the type and the
-- parameters only.
unfoldable pub rule_of : Oracle → List (Text × Proxy) → Line → Checked Rule
rule_of o proxies l =
    if is_some (lookup_proxy l.target proxies)
    then as_checked (parse_rule o (trim_spaces l.tp) l.payload l.target (trim_arr l.params))
    else err (unknown_proxy l.target)

unfoldable pub parse_line : Oracle → List (Text × Proxy) → Text → Checked Rule
parse_line o proxies line = do l ← line_of (trim_arr (split b',' line)); rule_of o proxies l

unfoldable pub parse_rules : Oracle → List (Text × Proxy) → List Text → Checked (List Rule)
parse_rules o proxies [] = ok []
parse_rules o proxies (line ∷ lines) = do
  r ← parse_line o proxies line
  rules ← parse_rules o proxies lines
  ok (r ∷ rules)

-- An insertion whose error the source ignores.
unfoldable pub insert_host : Text → Ip → Node Ip → Node Ip
insert_host domain ip tree = elim (Trie.insert domain (some ip) tree) [ none ↦ tree | some t ↦ t ]

unfoldable pub insert_hosts : (Text → Option Ip) → List (Text × Text) → Node Ip → Checked (Node Ip)
insert_hosts parse_ip [] tree = ok tree
insert_hosts parse_ip ((domain, ip) ∷ hosts) tree = elim (parse_ip ip) [
  | none ↦ err (invalid_ip ip)
  | some a ↦ insert_hosts parse_ip hosts (insert_host domain a tree)
]

-- The hosts are a map: its pairs are in the order in which the loop meets them.
unfoldable pub parse_hosts : (Text → Option Ip) → List (Text × Text) → Checked (Node Ip)
parse_hosts parse_ip hosts =
    insert_hosts parse_ip hosts (insert_host (codes "localhost") (127 ∷ 0 ∷ 0 ∷ 1 ∷ []) Trie.new)

-- `strings.Cut(line, ":")`
unfoldable pub cut : ℕ → Text → Option (Text × Text)
cut sep [] = none
cut sep (c ∷ s) =
    let rest = cut sep s in
    if c == sep
    then some ([], s)
    else elim rest [ none ↦ none | some (before, after) ↦ some (c ∷ before, after) ]

unfoldable pub parse_authentication : List Text → List (Text × Text)
parse_authentication [] = []
parse_authentication (line ∷ lines) =
    let users = parse_authentication lines in
    elim (cut b':' line) [ none ↦ users | some user ↦ user ∷ users ]

-- `NewAuthenticator` and `Verify`: of two users with one name the last counts.
unfoldable pub password : Text → List (Text × Text) → Option Text
password user [] = none
password user ((name, pass) ∷ users) = elim (password user users) [
  | some later ↦ some later
  | none ↦ if text_eq name user then some pass else none
]

unfoldable pub verify : List (Text × Text) → Text → Text → Bool
verify users user pass = elim (password user users) [ none ↦ false | some real ↦ text_eq real pass ]
