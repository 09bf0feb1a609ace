-- ===== src/Prelude/Text.antt =====
-- Strings as their bytes: equality, prefixes, suffixes, search, splitting and ASCII case.
use Prim.Native.Char.{code}
use Prim.Native.String.{String}
use native.Mathlib.Decide.{ℕ_discrete}
use Prim.Native.Nat.{ℕ, ◌+◌}
use mathlib.Core.Path.{◌≡◌, refl, sym, ap, ap₂, ◌∙◌, subst}
use mathlib.Core.Logic.{◌↔◌, inl, inr}
use mathlib.Core.Bool.{Bool, true, false, ◌&&◌, ◌||◌}
use mathlib.Core.List.{
  List, [], ◌∷◌, ◌++◌, map, reverse, List-discrete, reverse-append, reverse-reverse,
}
use native.Mathlib.Omega.{arith}
use clash_flt.Prelude.Tests.{leb, ◌==◌, if◌then◌else◌, Bool-cases}

abbrev pub Text : Type 0
Text = List ℕ

-- The code points of a literal: its bytes, if it is ASCII.
abbrev pub codes : String → Text
codes String.[] = []
codes (String.◌∷◌ c s) = code c ∷ codes s

unfoldable pub text_eq : Text → Text → Bool
text_eq [] [] = true
text_eq (a ∷ s) (b ∷ t) = a == b && text_eq s t
text_eq _ _ = false

pub text_eq_refl : (s : Text) → text_eq s s ≡ true
unfolding text_eq
text_eq_refl [] = refl
text_eq_refl (a ∷ s) = ground (arith, text_eq_refl s)

text_eq_sound : (s t : Text) → text_eq s t ≡ true → s ≡ t
unfolding text_eq
text_eq_sound [] [] h = refl
text_eq_sound (a ∷ s) (b ∷ t) h = ground (arith, text_eq_sound s t)
text_eq_sound [] (b ∷ t) h = absurd (ground arith)
text_eq_sound (a ∷ s) [] h = absurd (ground arith)

pub text_eq_iff : (s t : Text) → (text_eq s t ≡ true) ↔ (s ≡ t)
text_eq_iff s t = (text_eq_sound s t, λ e. ground (arith, text_eq_refl s))

unfoldable pub Text-discrete : Discrete Text
Text-discrete = List-discrete ℕ_discrete

-- `strings.HasPrefix`, `strings.HasSuffix`, `strings.Contains`
unfoldable pub has_prefix : Text → Text → Bool
has_prefix s [] = true
has_prefix [] (b ∷ t) = false
has_prefix (a ∷ s) (b ∷ t) = a == b && has_prefix s t

unfoldable pub has_suffix : Text → Text → Bool
unfolding has_prefix
has_suffix s t = has_prefix (reverse s) (reverse t)

unfoldable pub contains : Text → Text → Bool
unfolding has_prefix
contains [] t = has_prefix [] t
contains (a ∷ s) t = has_prefix (a ∷ s) t || contains s t

-- `strings.ToLower`, on ASCII
unfoldable pub lower_byte : ℕ → ℕ
lower_byte c = if leb b'A' c && leb c b'Z' then c + 32 else c

unfoldable pub to_lower : Text → Text
unfolding lower_byte
to_lower = map lower_byte

lower_byte_idem : (c : ℕ) → lower_byte (lower_byte c) ≡ lower_byte c
unfolding lower_byte
lower_byte_idem c = ground arith

pub to_lower_idem : (s : Text) → to_lower (to_lower s) ≡ to_lower s
unfolding to_lower
to_lower_idem [] = refl
to_lower_idem (c ∷ s) = ap₂ ◌∷◌ (lower_byte_idem c) (to_lower_idem s)

-- `strings.EqualFold`, on ASCII
unfoldable pub equal_fold : Text → Text → Bool
unfolding to_lower text_eq
equal_fold s t = text_eq (to_lower s) (to_lower t)

has_prefix_sound : (s t : Text) → has_prefix s t ≡ true → (u : Text) × (s ≡ t ++ u)
unfolding has_prefix
has_prefix_sound s [] h = (s, refl)
has_prefix_sound [] (b ∷ t) h = absurd (ground arith)
has_prefix_sound (a ∷ s) (b ∷ t) h =
    let (u, e) = has_prefix_sound s t (ground arith) in (u, ap₂ ◌∷◌ (ground arith) e)

has_prefix-append : (t u : Text) → has_prefix (t ++ u) t ≡ true
unfolding has_prefix
has_prefix-append [] [] = refl
has_prefix-append [] (a ∷ u) = refl
has_prefix-append (b ∷ t) u = ground (arith, has_prefix-append t u)

pub has_prefix_iff : (s t : Text) → (has_prefix s t ≡ true) ↔ ((u : Text) × (s ≡ t ++ u))
has_prefix_iff s t = (has_prefix_sound s t, λ r. rw r.1 (has_prefix-append t r.0))

pub has_suffix_iff : (s t : Text) → (has_suffix s t ≡ true) ↔ ((u : Text) × (s ≡ u ++ t))
unfolding has_suffix
has_suffix_iff s t = (
  λ h.
      let (u, e) = has_prefix_sound (reverse s) (reverse t) h in
      (
        reverse u,
        sym (reverse-reverse s)
            ∙ ap reverse e
            ∙ reverse-append (reverse t) u
            ∙ ap (λ z. reverse u ++ z) (reverse-reverse t),
      ),
  λ r.
      subst (λ z. has_prefix z (reverse t) ≡ true)
        (sym (reverse-append r.0 t) ∙ ap reverse (sym r.1))
        (has_prefix-append (reverse t) (reverse r.0)),
)

contains_sound : (s t : Text) → contains s t ≡ true → (u : Text) × (v : Text) × (s ≡ u ++ t ++ v)
unfolding contains
contains_sound [] t h = let (v, e) = has_prefix_sound [] t h in ([], v, e)
contains_sound (a ∷ s) t h = elim (Bool-cases (has_prefix (a ∷ s) t)) [
  | inl here ↦ let (v, e) = has_prefix_sound (a ∷ s) t here in ([], v, e)
  | inr there ↦ let (u, v, e) = contains_sound s t (ground arith) in (a ∷ u, v, ap (◌∷◌ a) e)
]

contains-append : (u t v : Text) → contains (u ++ t ++ v) t ≡ true
unfolding contains has_prefix
contains-append [] [] [] = refl
contains-append [] [] (a ∷ v) = refl
contains-append [] (b ∷ t) v = ground (arith, has_prefix-append (b ∷ t) v)
contains-append (a ∷ u) t v = ground (arith, contains-append u t v)

pub contains_iff :
    (s t : Text) → (contains s t ≡ true) ↔ ((u : Text) × (v : Text) × (s ≡ u ++ t ++ v))
contains_iff s t = (contains_sound s t, λ r. rw r.2 (contains-append r.0 t r.1))
