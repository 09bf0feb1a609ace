-- ===== src/Trie.antt =====
-- component/trie/node.go and component/trie/domain.go: the trie of domains behind the hosts table,
-- the fake-IP filter and the fallback filters.
--
-- A domain is walked from its last label. The functions below take the labels in that order, which
-- is the order of the loops in the source.
pub mod Paths
pub mod Patterns
pub mod Domains
use mathlib.Core.List.{reverse, tail}
use clash_flt.Prelude.{
  ℕ, ◌≡◌, Bool, true, false, ◌&&◌, ◌||◌, not, Option, none, some, List, [], ◌∷◌, ◌++◌, ◌==◌,
  if◌then◌else◌,
}
use clash_flt.Prelude.Text.{Text, codes, text_eq}

abbrev pub wildcard : Text
wildcard = codes "*"

abbrev pub dot_wildcard : Text
dot_wildcard = []

abbrev pub complex_wildcard : Text
complex_wildcard = codes "+"

-- `Data` is `none` where the source has nil.
mutual
  pub data Node {ℓ} (V : Type ℓ) : Type ℓ where
    node : Option V → Children V → Node V

  pub data Children {ℓ} (V : Type ℓ) : Type ℓ where
    nil : Children V
    child : Text → Node V → Children V → Children V

module _ {ℓ} {V : Type ℓ} where
  unfoldable pub data_of : Node V → Option V
  data_of (node d cs) = d

  unfoldable pub new_node : Option V → Node V
  new_node d = node d nil

  unfoldable pub find_child : Text → Children V → Option (Node V)
  find_child s nil = none
  find_child s (child t n cs) = if text_eq t s then some n else find_child s cs

  unfoldable pub get_child : Text → Node V → Option (Node V)
  get_child s (node d cs) = find_child s cs

  unfoldable pub put_child : Text → Node V → Children V → Children V
  put_child s n nil = child s n nil
  put_child s n (child t m cs) = if text_eq t s then child t n cs else child t m (put_child s n cs)

  unfoldable pub child_or_new : Option (Node V) → Node V
  child_or_new none = new_node none
  child_or_new (some n) = n

  -- The loop of `insert`: a missing child is added with no data, and the last node gets the data.
  unfoldable pub insert_labels : List Text → Option V → Node V → Node V
  insert_labels [] d (node _ cs) = node d cs
  insert_labels (s ∷ labels) d (node x cs) =
      node x (put_child s (insert_labels labels d (child_or_new (find_child s cs))) cs)

  -- A result of a recursive search counts only if it has data.
  unfoldable pub with_data : Option (Node V) → Option (Node V)
  with_data none = none
  with_data (some n) = elim (data_of n) [ none ↦ none | some _ ↦ some n ]

  unfoldable pub or_else : Option (Node V) → Option (Node V) → Option (Node V)
  or_else (some n) m = some n
  or_else none m = m

  -- The recursive search below a child, if there is the child.
  unfoldable pub descend : Option (Node V) → (Node V → Option (Node V)) → Option (Node V)
  descend none search_below = none
  descend (some c) search_below = with_data (search_below c)

  unfoldable pub search_labels : List Text → Node V → Option (Node V)
  search_labels [] n = some n
  search_labels (s ∷ labels) n =
      or_else (descend (get_child s n) (search_labels labels))
        (or_else (descend (get_child wildcard n) (search_labels labels)) (get_child dot_wildcard n))

-- `strings.Split(domain, ".")`
unfoldable pub split_from : Text → Text → List Text
split_from part [] = part ∷ []
split_from part (c ∷ s) =
    let next = split_from [] s in
    let more = split_from (part ++ c ∷ []) s in
    elim (c == b'.') [ true ↦ part ∷ next | false ↦ more ]

unfoldable pub ends_with_dot : Text → Bool
ends_with_dot [] = false
ends_with_dot (c ∷ []) = c == b'.'
ends_with_dot (c ∷ d ∷ s) = ends_with_dot (d ∷ s)

unfoldable pub has_empty : List Text → Bool
has_empty [] = false
has_empty (s ∷ labels) = text_eq s [] || has_empty labels

unfoldable pub check_parts : List Text → Option (List Text)
check_parts [] = none
check_parts (s ∷ []) = if text_eq s [] then none else some (s ∷ [])
check_parts (s ∷ t ∷ parts) = if has_empty (t ∷ parts) then none else some (s ∷ t ∷ parts)

-- `none` is the `false` of the source.
unfoldable pub valid_and_split_domain : Text → Option (List Text)
valid_and_split_domain domain =
    if ends_with_dot domain then none else check_parts (split_from [] domain)

unfoldable pub starts_empty : List Text → Bool
starts_empty [] = false
starts_empty (s ∷ parts) = text_eq s []

module _ {ℓ} {V : Type ℓ} where
  unfoldable pub insert_parts : List Text → Option V → Node V → Node V
  insert_parts parts d root = insert_labels (reverse parts) d root

  unfoldable pub insert_split : List Text → Option V → Node V → Node V
  insert_split [] d root = root
  insert_split (s ∷ parts) d root =
      if text_eq s complex_wildcard
      then insert_parts (dot_wildcard ∷ parts) d (insert_parts parts d root)
      else insert_parts (s ∷ parts) d root

  -- `none` is `ErrInvalidDomain`.
  unfoldable pub insert : Text → Option V → Node V → Option (Node V)
  insert domain d root = elim (valid_and_split_domain domain) [
    | none ↦ none
    | some parts ↦ some (insert_split parts d root)
  ]

  unfoldable pub search : Text → Node V → Option (Node V)
  search domain root = elim (valid_and_split_domain domain) [
    | none ↦ none
    | some parts ↦
        if starts_empty parts then none else with_data (search_labels (reverse parts) root)
  ]

  unfoldable pub new : Node V
  new = new_node none
