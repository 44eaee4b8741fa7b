-- ===== src/Prelude/Strings.antt =====
-- Go strings as lists of bytes: equality, and the functions of package strings that the sources use,
-- with separators of one byte.
use Prim.Native.Nat.{ℕ, zero, suc}
use Prim.Native.Char.{code}
use Prim.Native.String.{String}
use mathlib.Core.Path.{◌≡◌, refl}
use mathlib.Core.Logic.{◌≢◌}
use mathlib.Core.Bool.{Bool, true, false, ◌&&◌, ◌||◌}
use mathlib.Core.List.{List, [], ◌∷◌, ◌++◌, reverse}
use native.Mathlib.Decide.{ℕ_discrete}
use native.Mathlib.Omega.{arith}
use dot_ai_controller.Prelude.Tests.{Eq, ◌==◌, nat_eq, if◌then◌else◌}

abbrev pub Text : Type 0
Text = List ℕ

-- The bytes of an ASCII literal.
abbrev pub codes : String → Text
codes String.[] = []
codes (String.◌∷◌ letter rest) = code letter ∷ codes rest

unfoldable pub text_dec : Discrete Text
unfolding ℕ_discrete
text_dec = hlevel ℕ_discrete

instance abbrev pub text_eq : Eq Text
text_eq = record { dec = text_dec }

-- `len(s) == 0`, `s == ""`
abbrev pub is_empty : Text → Bool
is_empty [] = true
is_empty (c ∷ s) = false

unfoldable pub has_prefix : Text → Text → Bool
has_prefix s [] = true
has_prefix [] (p ∷ ps) = false
has_prefix (c ∷ s) (p ∷ ps) = c == p && has_prefix s ps

unfoldable pub has_suffix : Text → Text → Bool
unfolding has_prefix
has_suffix s suffix = has_prefix (reverse s) (reverse suffix)

-- Whether the byte occurs, as in `strings.Contains(s, "/")`.
unfoldable pub has_byte : ℕ → Text → Bool
has_byte sep [] = false
has_byte sep (c ∷ s) = c == sep || has_byte sep s

-- One more byte in front of the first part.
abbrev pub extend : ℕ → List Text → List Text
extend c [] = (c ∷ []) ∷ []
extend c (p ∷ ps) = (c ∷ p) ∷ ps

-- strings.Contains
unfoldable pub contains : Text → Text → Bool
unfolding has_prefix
contains [] part = is_empty part
contains (c ∷ s) part = has_prefix (c ∷ s) part || contains s part

-- What is left of a text after as many bytes as another one has.
abbrev pub drop_as : Text → Text → Text
drop_as [] s = s
drop_as (p ∷ ps) [] = []
drop_as (p ∷ ps) (c ∷ s) = drop_as ps s

-- strings.TrimPrefix
unfoldable pub trim_prefix : Text → Text → Text
unfolding has_prefix
trim_prefix s prefix = if has_prefix s prefix then drop_as prefix s else s

-- strings.TrimSuffix
unfoldable pub trim_suffix : Text → Text → Text
unfolding trim_prefix
trim_suffix s suffix = reverse (trim_prefix (reverse s) (reverse suffix))

-- strings.Split
unfoldable pub split : ℕ → Text → List Text
split sep [] = [] ∷ []
split sep (c ∷ s) = let rest = split sep s in if c == sep then [] ∷ rest else extend c rest

-- strings.SplitN: at most `n` parts, the last one unsplit.
unfoldable pub split_n : ℕ → Text → ℕ → List Text
split_n sep s zero = []
split_n sep s (suc zero) = s ∷ []
split_n sep [] (suc (suc n)) = [] ∷ []
split_n sep (c ∷ s) (suc (suc n)) =
    let cut = split_n sep s (suc n) in
    let more = split_n sep s (suc (suc n)) in if c == sep then [] ∷ cut else extend c more

-- strings.Join
unfoldable pub join : ℕ → List Text → Text
join sep [] = []
join sep (p ∷ []) = p
join sep (p ∷ q ∷ ps) = p ++ sep ∷ join sep (q ∷ ps)

join-extend :
    (sep c : ℕ) (p : Text) (ps : List Text) → join sep (extend c (p ∷ ps)) ≡ c ∷ join sep (p ∷ ps)
unfolding join
join-extend sep c p [] = refl
join-extend sep c p (q ∷ ps) = refl

extend-ne-nil : (c : ℕ) (r : List Text) → extend c r ≢ []
extend-ne-nil c [] h = cc
extend-ne-nil c (p ∷ ps) h = cc

pub split-ne-nil : (sep : ℕ) (s : Text) → split sep s ≢ []
unfolding split
split-ne-nil sep [] h = cc
split-ne-nil sep (c ∷ s) h = ground (arith, extend-ne-nil c (split sep s))

-- A text without the separator, up to the separator, is the first part.
pub split_n-cut :
    (sep : ℕ) (p s : Text) (n : ℕ)
    → has_byte sep p ≡ false
    → split_n sep (p ++ sep ∷ s) (suc (suc n)) ≡ p ∷ split_n sep s (suc n)
unfolding split_n has_byte
split_n-cut sep [] s n h = ground arith
split_n-cut sep (c ∷ p) s n h = ground (arith, split_n-cut sep p s n)

pub split_n-whole :
    (sep : ℕ) (p : Text) (n : ℕ) → has_byte sep p ≡ false → split_n sep p (suc (suc n)) ≡ p ∷ []
unfolding split_n has_byte
split_n-whole sep [] n h = refl
split_n-whole sep (c ∷ p) n h = ground (arith, split_n-whole sep p n)

pub split-cut :
    (sep : ℕ) (p s : Text) → has_byte sep p ≡ false → split sep (p ++ sep ∷ s) ≡ p ∷ split sep s
unfolding split has_byte
split-cut sep [] s h = ground arith
split-cut sep (c ∷ p) s h = ground (arith, split-cut sep p s)

pub split-whole : (sep : ℕ) (p : Text) → has_byte sep p ≡ false → split sep p ≡ p ∷ []
unfolding split has_byte
split-whole sep [] h = refl
split-whole sep (c ∷ p) h = ground (arith, split-whole sep p)

pub join-split : (sep : ℕ) (s : Text) → join sep (split sep s) ≡ s
unfolding split join
join-split sep [] = refl
join-split sep (c ∷ s) = onward (split sep s) (split-ne-nil sep s) (join-split sep s)
  where
    onward :
        (r : List Text)
        → r ≢ []
        → join sep r ≡ s
        → join sep (if c == sep then [] ∷ r else extend c r) ≡ c ∷ s
    onward [] ne e = absurd (ne refl)
    onward (p ∷ ps) ne e = ground (arith, join-extend sep c p ps)
