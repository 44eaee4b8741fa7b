-- ===== src/Prelude/Affixes.antt =====
-- Prefixes and suffixes of texts.
use mathlib.Core.List.{reverse, reverse-append, reverse-reverse}
use dot_ai_controller.Prelude.{
  ◌≡◌, refl, sym, ap, ◌∙◌, ◌↔◌, true, [], ◌∷◌, ◌++◌, Text, has_prefix, has_suffix, nat_eq, arith,
}

prefix-rest : (s p : Text) → has_prefix s p ≡ true → (r : Text) × (s ≡ p ++ r)
unfolding has_prefix
prefix-rest s [] h = (s, refl)
prefix-rest [] (x ∷ p) h = ground arith
prefix-rest (c ∷ s) (x ∷ p) h = let (r, e) = prefix-rest s p (ground arith) in (r, ground arith)

rest-prefix : (p r : Text) → has_prefix (p ++ r) p ≡ true
unfolding has_prefix
rest-prefix [] [] = refl
rest-prefix [] (x ∷ r) = refl
rest-prefix (c ∷ p) r = ground (arith, rest-prefix p r)

pub has_prefix_iff : (s p : Text) → (has_prefix s p ≡ true) ↔ ((r : Text) × (s ≡ p ++ r))
has_prefix_iff s p = (prefix-rest s p, λ h. let (r, e) = h in rw e (rest-prefix p r))

suffix-rest : (s x : Text) → has_suffix s x ≡ true → (r : Text) × (s ≡ r ++ x)
unfolding has_suffix
suffix-rest s x h =
    let (r, e) = prefix-rest (reverse s) (reverse x) h in
    (
      reverse r,
      sym (reverse-reverse s)
          ∙ ap reverse e
          ∙ reverse-append (reverse x) r
          ∙ ap (λ (y : Text). reverse r ++ y) (reverse-reverse x),
    )

rest-suffix : (r x : Text) → has_suffix (r ++ x) x ≡ true
unfolding has_suffix
rest-suffix r x = rw (reverse-append r x) (rest-prefix (reverse x) (reverse r))

pub has_suffix_iff : (s x : Text) → (has_suffix s x ≡ true) ↔ ((r : Text) × (s ≡ r ++ x))
has_suffix_iff s x = (suffix-rest s x, λ h. let (r, e) = h in rw e (rest-suffix r x))
