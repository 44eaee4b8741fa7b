-- ===== src/CapabilityScan/Filter/Groups.antt =====
-- capabilityscan_controller.go, `matchesGroupPattern`: which groups a pattern matches.
use dot_ai_controller.Prelude.{
  ◌≡◌, ◌↔◌, ◌⊎◌, inl, inr, true, Text, ◌∷◌, ◌++◌, codes, text_eq, if◌then◌else◌, has_prefix,
  has_suffix, arith,
}
use dot_ai_controller.Prelude.Affixes.{has_suffix_iff}
use dot_ai_controller.CapabilityScan.Filter.{dot, star, tail, matches_group_pattern}

-- `.crossplane.io`, both for the pattern `*.crossplane.io` and for `crossplane.io`.
abbrev pub dotted : Text → Text
dotted pattern = if has_prefix pattern (codes "*.") then tail pattern else dot ∷ pattern

matched :
    (g p : Text)
    → matches_group_pattern g p ≡ true
    → (p ≡ star) ⊎ (g ≡ p) ⊎ (has_suffix g (dotted p) ≡ true)
unfolding matches_group_pattern
matched g p h = ground arith

matching :
    (g p : Text)
    → (p ≡ star) ⊎ (g ≡ p) ⊎ (has_suffix g (dotted p) ≡ true)
    → matches_group_pattern g p ≡ true
unfolding matches_group_pattern
matching g p h = ground arith

-- A group matches a pattern exactly if the pattern is `*`, or is the group, or the group ends in a dot
-- and the pattern without its leading `*.`, if it has one.
pub matches_group_pattern_iff :
    (g p : Text)
    → (matches_group_pattern g p ≡ true)
      ↔ ((p ≡ star) ⊎ (g ≡ p) ⊎ ((r : Text) × (g ≡ r ++ dotted p)))
matches_group_pattern_iff g p = (to, from)
  where
    to :
        matches_group_pattern g p ≡ true → (p ≡ star) ⊎ (g ≡ p) ⊎ ((r : Text) × (g ≡ r ++ dotted p))
    to h = elim (matched g p h) [
      | inl s ↦ inl s
      | inr (inl e) ↦ inr (inl e)
      | inr (inr x) ↦ inr (inr ((has_suffix_iff g (dotted p)).0 x))
    ]

    from :
        (p ≡ star) ⊎ (g ≡ p) ⊎ ((r : Text) × (g ≡ r ++ dotted p)) → matches_group_pattern g p ≡ true
    from (inl s) = matching g p (inl s)
    from (inr (inl e)) = matching g p (inr (inl e))
    from (inr (inr x)) = matching g p (inr (inr ((has_suffix_iff g (dotted p)).1 x)))
