-- ===== src/Tests/Tries.antt =====
-- Examples for component/trie.
use mathlib.Core.List.{reverse}
use clash_flt.Prelude.{ℕ, ◌≡◌, refl, none, some, List, [], ◌∷◌}
use clash_flt.Prelude.Text.{Text, codes, text_eq}
use clash_flt.Trie
use clash_flt.Trie.{
  Node, insert, search, search_labels, insert_labels, valid_and_split_domain, split_from,
  ends_with_dot, has_empty, check_parts, starts_empty, dot_wildcard, complex_wildcard,
}
use clash_flt.Trie.Paths.{data_at}
use clash_flt.Trie.Patterns.{Matches, found, first_data, patterns, found-search}
use clash_flt.Trie.Domains.{search-Matches, search-insert}

abbrev root : Node ℕ
root = insert_labels (codes "com" ∷ codes "*" ∷ []) (some 1) (Trie.new {V = ℕ})

abbrev labels : List Text
labels = codes "a" ∷ codes "com" ∷ []

split_domain : valid_and_split_domain (codes "a.com") ≡ some labels
unfolding valid_and_split_domain ends_with_dot check_parts split_from has_empty text_eq
split_domain = refl

split_complex : valid_and_split_domain (codes "+.com") ≡ some (complex_wildcard ∷ codes "com" ∷ [])
unfolding valid_and_split_domain ends_with_dot check_parts split_from has_empty text_eq
split_complex = refl

found-search_example :
    found (search_labels (reverse labels) root) ≡ first_data (patterns (reverse labels)) root
found-search_example = found-search (reverse labels) root

search-Matches_example :
    ((v : ℕ)
      → found (search (codes "a.com") root) ≡ some v
      → (p : List Text) × Matches p (reverse labels) × (data_at p root ≡ some v))
    × (found (search (codes "a.com") root) ≡ none
        → (p : List Text) → Matches p (reverse labels)
        → data_at p root ≡ none)
unfolding starts_empty text_eq
search-Matches_example = search-Matches (codes "a.com") labels root split_domain refl

search-insert_example :
    (t : Node ℕ) × (insert (codes "a.com") (some 5) root ≡ some t)
    × (found (search (codes "a.com") t) ≡ some 5)
unfolding text_eq
search-insert_example =
    search-insert (codes "a.com") (codes "a") (codes "com" ∷ []) 5 root split_domain refl refl
