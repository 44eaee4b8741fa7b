-- ===== src/CapabilityScan/Filter/Patterns.antt =====
-- capabilityscan_controller.go, `matchesPattern` and `shouldProcessResource`.
use dot_ai_controller.Prelude.{
  ==-true, ==-false, sym, ◌∙◌, ◌≢◌, ◌≡◌, refl, ap, Bool-cases, ℕ_discrete, ◌↔◌, ◌⊎◌, inl, inr, Bool,
  true, false, ◌&&◌, ◌||◌, Text, List, [], ◌∷◌, ◌++◌, In, any_of, any_of-In, any_of-none, In-any_of,
  none-any_of, text_eq, text_dec, ◌==◌, has_byte, split_n, split_n-cut, split_n-whole, arith,
}
use dot_ai_controller.CapabilityScan.Filter.{
  dot, star, matches_group_pattern, match_parts, matches_pattern, should_process_resource,
}

-- A kind matches a part of a pattern that is `*`, or the kind.
abbrev pub kind_matches : Text → Text → Bool
kind_matches p k = p == star || p == k

group_self : (g q : Text) → g ≡ q → matches_group_pattern g q ≡ true
unfolding matches_group_pattern
group_self g q e = ground arith

or_true : (b : Bool) → (b || true) ≡ true
or_true true = refl
or_true false = refl

or_true_and : (b : Bool) → ((b || true) && true) ≡ true
or_true_and true = refl
or_true_and false = refl

split_dotted : (p : Text) → has_byte dot p ≡ true → (a b : Text) × (split_n dot p 2 ≡ a ∷ b ∷ [])
unfolding split_n has_byte
split_dotted [] h = absurd (ground arith)
split_dotted (c ∷ s) h = elim (ℕ_discrete c dot) [
  | yes e ↦ ([], s, ground arith)
  | no n ↦ let (a, b, q) = split_dotted s (ground arith) in (c ∷ a, b, ground arith)
]

module _ (id p : Text) where
  exact : id ≡ p → matches_pattern id p ≡ true
  unfolding matches_pattern
  exact e = rw (==-true id p e)

  by_parts :
      id ≢ p → p ≢ star → matches_pattern id p ≡ match_parts (split_n dot id 2) (split_n dot p 2)
  unfolding matches_pattern
  by_parts n s = rw (==-false id p n, ==-false p star s)

  starred : p ≡ star → matches_pattern id p ≡ true
  unfolding matches_pattern
  starred s = rw (==-true p star s) (ground arith)

star_plain : has_byte dot star ≡ false
unfolding has_byte ℕ_discrete
star_plain = refl

has_dot : (p q : Text) → has_byte dot (p ++ dot ∷ q) ≡ true
unfolding has_byte
has_dot [] q = ground arith
has_dot (c ∷ p) q = ground (arith, has_dot p q)

parts_eq : {a b c d : Text} → ◌≡◌ {A = List Text} (a ∷ b ∷ []) (c ∷ d ∷ []) → (a ≡ c) × (b ≡ d)
parts_eq e = (cc, cc)

group_matches : Text → Text → Bool
group_matches q g = q == star || matches_group_pattern g q

group_matches_lem : (q g : Text) → group_matches q g ≡ matches_group_pattern g q
unfolding group_matches matches_group_pattern
group_matches_lem q g = ground arith

-- A grouped resource, `Kind.group`, against a pattern with a dot: kind and group are compared apart,
-- and a `*` stands for any kind, or for any group.
pub matches_pattern-grouped :
    (kind group p q : Text)
    → has_byte dot kind ≡ false
    → has_byte dot p ≡ false
    → matches_pattern (kind ++ dot ∷ group) (p ++ dot ∷ q)
      ≡ (kind_matches p kind && matches_group_pattern group q)
unfolding match_parts split_n
matches_pattern-grouped kind group p q hk hp =
    elim (text_dec (kind ++ dot ∷ group) (p ++ dot ∷ q)) [
      | yes e ↦
          let cut : ◌≡◌ {A = List Text} (kind ∷ group ∷ []) (p ∷ q ∷ []) =
            sym (split_n-cut dot kind group 0 hk)
            ∙ ap (λ (s : Text). split_n dot s 2) e
            ∙ split_n-cut dot p q 0 hp in
          let (k, g) = parts_eq cut in
          exact (kind ++ dot ∷ group) (p ++ dot ∷ q) e
          ∙ sym (rw (group_self group q g, ==-true p kind (sym k)) (or_true_and (p == star)))
      | no n ↦
          by_parts (kind ++ dot ∷ group) (p ++ dot ∷ q) n
            (λ s. cc (has_dot p q, ap (has_byte dot) s, star_plain))
          ∙ rw (split_n-cut dot kind group 0 hk, split_n-cut dot p q 0 hp)
              (ap (λ (x : Bool). kind_matches p kind && x)
                (unfold group_matches in group_matches_lem q group))
    ]

-- A core resource, which has no group, is matched by `*` and by its own kind, and by no pattern with a
-- dot.
pub matches_pattern-core :
    (kind p : Text) → has_byte dot kind ≡ false → matches_pattern kind p ≡ kind_matches p kind
unfolding match_parts
matches_pattern-core kind p h = elim (text_dec kind p) [
  | yes e ↦ exact kind p e ∙ sym (rw (==-true p kind (sym e)) (or_true (p == star)))
  | no n ↦ elim (text_dec p star) [
    | yes s ↦ starred kind p s ∙ sym (rw (==-true p star s))
    | no t ↦ by_parts kind p n t ∙ elim (Bool-cases (has_byte dot p)) [
      | inl dotted ↦
          let (a, b, e) = split_dotted p dotted in
          rw (e, split_n-whole dot kind 0 h, ==-false p star t, ==-false p kind (λ x. n (sym x)))
      | inr plain ↦ rw (split_n-whole dot kind 0 h, split_n-whole dot p 0 plain)
    ]
  ]
]

module _ (include exclude : List Text) (id : Text) where
  included :
      should_process_resource include exclude id ≡ true
      → (include ≡ []) ⊎ (any_of (matches_pattern id) include ≡ true)
  unfolding should_process_resource
  included h = ground arith

  not_excluded :
      should_process_resource include exclude id ≡ true
      → any_of (matches_pattern id) exclude ≡ false
  unfolding should_process_resource
  not_excluded h = ground arith

  process :
      (include ≡ []) ⊎ (any_of (matches_pattern id) include ≡ true)
      → any_of (matches_pattern id) exclude ≡ false
      → should_process_resource include exclude id ≡ true
  unfolding should_process_resource
  process (inl none) f = rw (none, f)
  process (inr some) f = ground arith

-- A resource is processed exactly if it matches a pattern of the include list, where that list is not
-- empty, and no pattern of the exclude list.
pub should_process_resource_iff :
    (include exclude : List Text) (id : Text)
    → (should_process_resource include exclude id ≡ true) ↔ (
        ((include ≡ []) ⊎ ((p : Text) × In p include × (matches_pattern id p ≡ true)))
        × ((p : Text) → In p exclude → matches_pattern id p ≡ false))
should_process_resource_iff include exclude id = (to, λ h. from h.0 h.1)
  where
    to :
        should_process_resource include exclude id ≡ true
        → ((include ≡ []) ⊎ ((p : Text) × In p include × (matches_pattern id p ≡ true)))
          × ((p : Text) → In p exclude → matches_pattern id p ≡ false)
    to h = (
      elim (included include exclude id h) [
        | inl none ↦ inl none
        | inr some ↦ inr (any_of-In (matches_pattern id) include some)
      ],
      λ p m. any_of-none (matches_pattern id) p exclude (not_excluded include exclude id h) m,
    )

    from :
        ((include ≡ []) ⊎ ((p : Text) × In p include × (matches_pattern id p ≡ true)))
        → ((p : Text) → In p exclude → matches_pattern id p ≡ false)
        → should_process_resource include exclude id ≡ true
    from (inl none) h =
        process include exclude id (inl none) (none-any_of (matches_pattern id) exclude h)
    from (inr (p, m, t)) h =
        process include exclude id (inr (In-any_of (matches_pattern id) p include m t))
          (none-any_of (matches_pattern id) exclude h)
