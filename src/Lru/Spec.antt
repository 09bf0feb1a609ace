-- ===== src/Lru/Spec.antt =====
-- The cache as a client sees it: entries from the least recent to the most recent, with no element
-- identities and no map.
use mathlib.Core.List.{tail}
use clash_flt.Prelude.{
  ℕ, ◌+◌, Bool, ◌&&◌, not, Option, none, some, List, [], ◌∷◌, ◌++◌, ltb, leb, if◌then◌else◌, length,
}
use clash_flt.Lru.{Config, Entry, is_over}

module _ {ℓ} {K V : Type ℓ} where
  -- The entries that are left when the expired ones at the front are gone.
  unfoldable pub prune : ℕ → List (Entry K V) → List (Entry K V)
  prune now [] = []
  prune now (e ∷ l) = if leb e.expires now then prune now l else e ∷ l

  -- What `maybeDeleteOldest` leaves under the settings.
  unfoldable pub prune_by : Config → ℕ → List (Entry K V) → List (Entry K V)
  prune_by g now l = if not g.stale_return && ltb 0 g.max_age then prune now l else l

  -- One entry leaves at the front if there are more than a positive `max_size`.
  unfoldable pub trim : ℕ → List (Entry K V) → List (Entry K V)
  trim size l = if is_over size (length l) then tail l else l

  -- A hit renews the expiry only under `update_age_on_get` and a positive age.
  unfoldable pub renew : Config → ℕ → Entry K V → Entry K V
  renew g now e =
      if ltb 0 g.max_age && g.update_age_on_get then record e { expires = now + g.max_age } else e

  -- An entry that `get` treats as expired.
  unfoldable pub is_stale : Config → ℕ → Entry K V → Bool
  is_stale g now e = (not g.stale_return && ltb 0 g.max_age) && leb e.expires now

module _ {ℓ} {K V : Type ℓ} (dec : Discrete K) where
  unfoldable pub lookup : K → List (Entry K V) → Option (Entry K V)
  lookup k [] = none
  lookup k (e ∷ l) = elim (dec e.key k) [ yes _ ↦ some e | no _ ↦ lookup k l ]

  unfoldable pub remove : K → List (Entry K V) → List (Entry K V)
  remove k [] = []
  remove k (e ∷ l) = elim (dec e.key k) [ yes _ ↦ l | no _ ↦ e ∷ remove k l ]

  unfoldable pub set_entries : Config → ℕ → K → V → ℕ → List (Entry K V) → List (Entry K V)
  set_entries g now k v expires l = prune_by g now (elim (lookup k l) [
    | some e ↦ remove k l ++ record e { value = v; expires = expires } ∷ []
    | none ↦ trim g.max_size (l ++ record { key = k; value = v; expires = expires } ∷ [])
  ])

  unfoldable pub hit_entries :
      Config → ℕ → ℕ → K → Entry K V → List (Entry K V) → List (Entry K V) × Option (Entry K V)
  hit_entries g now now' k e l =
      if is_stale g now e
      then (prune_by g now' (remove k l), none)
      else (remove k l ++ renew g now' e ∷ [], some (renew g now' e))

  unfoldable pub get_entries :
      Config → ℕ → ℕ → K → List (Entry K V) → List (Entry K V) × Option (Entry K V)
  get_entries g now now' k l = elim (lookup k l) [
    | none ↦ (l, none)
    | some e ↦ hit_entries g now now' k e l
  ]
