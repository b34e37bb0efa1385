-- ===== src/Base/Text.antt =====
-- Texts that the program joins and compares: the prefixes of cache keys, and names that hold no
-- colon, as the names of Kubernetes objects do.
use Prim.Native.Nat.{ℕ}
use Prim.Native.String
use Prim.Native.String.{String}
use Prim.Native.Char.{code}
use mathlib.Core.Path.{◌≡◌, sym, ap, ◌∙◌}
use mathlib.Core.Logic.{◌≢◌}
use mathlib.Core.Bool.{Bool, true, false, ◌&&◌, ◌||◌}
use mathlib.Core.List.{List, [], ◌∷◌, ◌++◌}
use native.Mathlib.Omega.{arith}
use text.Mathlib.Text.{◌==◌ as str_eq}
use text.Mathlib.TextEquality.{eq_iff}
use text.Mathlib.TextLemmas.{nil-append, cons-append, append_assoc, append_cancel_left}
use cluster_api_provider_elf.Base.Tests.{◌==◌, if◌then◌else◌}

infixr 65 ◌+++◌
abbrev pub ◌+++◌ : String → String → String
s +++ t = String.◌++◌ s t

-- The code points of a text.
abbrev pub codes : String → List ℕ
codes String.[] = []
codes (String.◌∷◌ c s) = code c ∷ codes s

pub codes-append : (s t : String) → codes (s +++ t) ≡ codes s ++ codes t
codes-append String.[] t = ap codes (nil-append t)
codes-append (String.◌∷◌ c s) t =
    ap codes (cons-append c s t) ∙ ap (◌∷◌ (code c)) (codes-append s t)

-- Two lists differ at a place that both have.
abbrev pub differ : List ℕ → List ℕ → Bool
differ (x ∷ xs) (y ∷ ys) = if x == y then differ xs ys else true
differ _ _ = false

abbrev pub has_colon : List ℕ → Bool
has_colon [] = false
has_colon (c ∷ cs) = (c == b':') || has_colon cs

-- A name as Kubernetes accepts it, as far as the keys depend on it.
abbrev pub IsName : String → Type 0
IsName s = has_colon (codes s) ≡ false

pub ne_of_differ : (xs ys us vs : List ℕ) → differ xs ys ≡ true → (xs ++ us) ≢ (ys ++ vs)
ne_of_differ [] ys us vs h e = cc
ne_of_differ (x ∷ xs) [] us vs h e = cc
ne_of_differ (x ∷ xs) (y ∷ ys) us vs h e = ground (arith, ne_of_differ xs ys us vs)

pub str_eq_of_ne : (s t : String) → s ≢ t → str_eq s t ≡ false
str_eq_of_ne s t h = ground (arith, eq_iff s t)

-- Keys under prefixes that differ are different keys.
pub prefixed_ne :
    (p q a b : String) → differ (codes p) (codes q) ≡ true → str_eq (p +++ a) (q +++ b) ≡ false
prefixed_ne p q a b h = str_eq_of_ne _ _ λ e.
    ne_of_differ (codes p) (codes q) (codes a) (codes b) h
      (sym (codes-append p a) ∙ ap codes e ∙ codes-append q b)

-- Under one prefix two keys are equal just when the names are.
pub prefixed_eq : (p a b : String) → str_eq (p +++ a) (p +++ b) ≡ str_eq a b
prefixed_eq p a b = ground (
  arith,
  eq_iff a b,
  eq_iff (p +++ a) (p +++ b),
  λ (e : (p +++ a) ≡ (p +++ b)). append_cancel_left p a b e,
)

has_colon-append : (xs ys : List ℕ) → has_colon xs ≡ true → has_colon (xs ++ ys) ≡ true
has_colon-append [] ys h = cc
has_colon-append (x ∷ xs) ys h = ground (arith, has_colon-append xs ys)

-- A longer prefix with a colon in its further part is no prefix of a name.
pub name_ne :
    (p r a b : String)
    → IsName a
    → has_colon (codes r) ≡ true
    → str_eq (p +++ a) (p +++ (r +++ b)) ≡ false
name_ne p r a b n h =
    prefixed_eq p a (r +++ b)
    ∙ str_eq_of_ne a (r +++ b)
        λ e. ground (arith, has_colon-append (codes r) (codes b), ap codes e, codes-append r b)

-- The first list stands at the front of the second.
unfoldable pub is_prefix : List ℕ → List ℕ → Bool
is_prefix [] ys = true
is_prefix (x ∷ xs) [] = false
is_prefix (x ∷ xs) (y ∷ ys) = (x == y) && is_prefix xs ys

unfoldable pub is_infix : List ℕ → List ℕ → Bool
unfolding is_prefix
is_infix xs [] = is_prefix xs []
is_infix xs (y ∷ ys) = is_prefix xs (y ∷ ys) || is_infix xs ys

-- strings.Contains(s, t)
unfoldable pub contains : String → String → Bool
unfolding is_infix
contains s t = is_infix (codes t) (codes s)

-- strings.HasPrefix(s, t)
unfoldable pub has_prefix : String → String → Bool
unfolding is_prefix
has_prefix s t = is_prefix (codes t) (codes s)

ne_of_is_prefix : (xs ys zs : List ℕ) → is_prefix ys xs ≡ false → xs ≢ (ys ++ zs)
unfolding is_prefix
ne_of_is_prefix xs [] zs h e = cc
ne_of_is_prefix [] (y ∷ ys) zs h e = cc
ne_of_is_prefix (x ∷ xs) (y ∷ ys) zs h e = ground (arith, ne_of_is_prefix xs ys zs)

-- A name that does not begin with `r` differs from every text that does, also behind a prefix.
pub prefix_ne :
    (p r a b : String) → has_prefix a r ≡ false → str_eq (p +++ a) (p +++ (r +++ b)) ≡ false
unfolding has_prefix
prefix_ne p r a b h =
    prefixed_eq p a (r +++ b)
    ∙ str_eq_of_ne a (r +++ b)
        λ e. ne_of_is_prefix (codes a) (codes r) (codes b) h (ap codes e ∙ codes-append r b)

has_colon-append_right : (xs ys : List ℕ) → has_colon ys ≡ true → has_colon (xs ++ ys) ≡ true
has_colon-append_right [] ys h = h
has_colon-append_right (x ∷ xs) ys h = ground (arith, has_colon-append_right xs ys)

-- A name is no text with a colon at its end.
pub name_suffix_ne :
    (p r a b : String)
    → IsName a
    → has_colon (codes r) ≡ true
    → str_eq (p +++ a) (p +++ (b +++ r)) ≡ false
name_suffix_ne p r a b n h =
    prefixed_eq p a (b +++ r)
    ∙ str_eq_of_ne a (b +++ r) λ e.
      ground (arith, has_colon-append_right (codes b) (codes r), ap codes e, codes-append b r)

-- The same of two keys given the other way round, the longer prefix joined first.
pub key_ne :
    (p r a b : String)
    → IsName a
    → has_colon (codes r) ≡ true
    → str_eq ((p +++ r) +++ b) (p +++ a) ≡ false
key_ne p r a b n h = str_eq_of_ne _ _ λ (e : ((p +++ r) +++ b) ≡ (p +++ a)).
    ground
      (arith, name_ne p r a b n h, eq_iff (p +++ a) (p +++ (r +++ b)), sym e ∙ append_assoc p r b)

pub key_suffix_ne :
    (p r a b : String)
    → IsName a
    → has_colon (codes r) ≡ true
    → str_eq (p +++ (b +++ r)) (p +++ a) ≡ false
key_suffix_ne p r a b n h =
    str_eq_of_ne _ _
      λ e. ground (arith, name_suffix_ne p r a b n h, eq_iff (p +++ a) (p +++ (b +++ r)), sym e)

pub key_prefix_ne :
    (p r a b : String) → has_prefix a r ≡ false → str_eq ((p +++ r) +++ b) (p +++ a) ≡ false
key_prefix_ne p r a b h = str_eq_of_ne _ _ λ (e : ((p +++ r) +++ b) ≡ (p +++ a)).
    ground
      (arith, prefix_ne p r a b h, eq_iff (p +++ a) (p +++ (r +++ b)), sym e ∙ append_assoc p r b)
