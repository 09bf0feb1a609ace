-- ===== src/Trie/Domains.antt =====
-- `Insert` and `Search` on whole domains.
use mathlib.Core.List.{reverse}
use clash_flt.Prelude.{◌≡◌, sym, ap, ◌∙◌, false, Option, none, some, List, [], ◌∷◌, if◌then◌else◌}
use clash_flt.Prelude.Text.{Text, text_eq}
use clash_flt.Trie.{
  Node, complex_wildcard, dot_wildcard, insert_labels, search_labels, valid_and_split_domain,
  insert_parts, insert_split, insert, starts_empty, search,
}
use clash_flt.Trie.Paths.{path_eq, path_eq_refl, data_at, data_at-insert}
use clash_flt.Trie.Patterns.{
  Matches, patterns, found, first_data, found-search, found-with_data, first_static,
  search_labels_sound, search_labels_complete,
}

module _ {ℓ} {V : Type ℓ} where
  found-search_split :
      (domain : Text) (parts : List Text) (t : Node V)
      → valid_and_split_domain domain ≡ some parts
      → starts_empty parts ≡ false
      → found (search domain t) ≡ found (search_labels (reverse parts) t)
  unfolding search
  found-search_split domain parts t h e =
      rw (h, search, e) (found-with_data (search_labels (reverse parts) t))

  -- For a valid domain that does not start with a dot, the data that `Search` finds is the data of
  -- the first pattern, in the order static, star, dot at each label from the last, that matches the
  -- domain and has data in the trie; nothing is found exactly if there is none.
  pub search-patterns :
      (domain : Text) (parts : List Text) (t : Node V)
      → valid_and_split_domain domain ≡ some parts
      → starts_empty parts ≡ false
      → found (search domain t) ≡ first_data (patterns (reverse parts)) t
  search-patterns domain parts t h e =
      found-search_split domain parts t h e ∙ found-search (reverse parts) t

  -- For a domain that splits into parts of which the first is not empty: what `Search` finds is the
  -- data of a pattern that matches the domain, and where it finds nothing, no pattern that matches
  -- the domain has data.
  pub search-Matches :
      (domain : Text) (parts : List Text) (t : Node V)
      → valid_and_split_domain domain ≡ some parts
      → starts_empty parts ≡ false
      → ((v : V)
          → found (search domain t) ≡ some v
          → (p : List Text) × Matches p (reverse parts) × (data_at p t ≡ some v))
        × (found (search domain t) ≡ none
            → (p : List Text) → Matches p (reverse parts)
            → data_at p t ≡ none)
  search-Matches domain parts t h e =
      let split = found-search_split domain parts t h e in
      (
        λ v s. search_labels_sound (reverse parts) t v (sym split ∙ s),
        λ s p m. search_labels_complete (reverse parts) t p (sym split ∙ s) m,
      )

  -- `Insert` of a domain whose first label is not "+" changes the data under its own path only.
  pub data_at-insert_domain :
      (domain : Text) (s : Text) (parts : List Text) (d : Option V) (t : Node V) (q : List Text)
      → valid_and_split_domain domain ≡ some (s ∷ parts)
      → text_eq s complex_wildcard ≡ false
      → (t' : Node V) × (insert domain d t ≡ some t')
        × (data_at q t' ≡ (if path_eq (reverse (s ∷ parts)) q then d else data_at q t))
  unfolding insert insert_split insert_parts
  data_at-insert_domain domain s parts d t q h e = (
    insert_labels (reverse (s ∷ parts)) d t,
    rw (h, insert, e),
    data_at-insert (reverse (s ∷ parts)) q d t,
  )

  -- `Insert` of "+.rest" succeeds, stores the data under the path of the rest and under the path of
  -- the rest behind a dot, and changes no other path.
  data_at-insert_complex :
      (domain : Text) (parts : List Text) (d : Option V) (t : Node V) (q : List Text)
      → valid_and_split_domain domain ≡ some (complex_wildcard ∷ parts)
      → (t' : Node V) × (insert domain d t ≡ some t')
        × (data_at q t' ≡ (
            if path_eq (reverse (dot_wildcard ∷ parts)) q
            then d
            else if path_eq (reverse parts) q
            then d
            else data_at q t))
  unfolding insert insert_split insert_parts text_eq
  data_at-insert_complex domain parts d t q h = (
    insert_labels (reverse (dot_wildcard ∷ parts)) d (insert_labels (reverse parts) d t),
    rw (h, insert),
    data_at-insert (reverse (dot_wildcard ∷ parts)) q d (insert_labels (reverse parts) d t)
        ∙ ap (λ o. if path_eq (reverse (dot_wildcard ∷ parts)) q then d else o)
            (data_at-insert (reverse parts) q d t),
  )

  -- After `Insert` of a valid domain that starts with neither "+" nor a dot, `Search` of the same
  -- domain finds the inserted data, whatever the trie held before.
  pub search-insert :
      (domain : Text) (s : Text) (parts : List Text) (v : V) (t : Node V)
      → valid_and_split_domain domain ≡ some (s ∷ parts)
      → text_eq s complex_wildcard ≡ false
      → text_eq s [] ≡ false
      → (t' : Node V) × (insert domain (some v) t ≡ some t') × (found (search domain t') ≡ some v)
  search-insert domain s parts v t h plus dot =
      let l = reverse (s ∷ parts) in
      let (t', done, stored) = data_at-insert_domain domain s parts (some v) t l h plus in
      (
        t',
        done,
        search-patterns domain (s ∷ parts) t' h (unfold starts_empty in dot)
            ∙ first_static l t' v (stored ∙ rw path_eq_refl),
      )
