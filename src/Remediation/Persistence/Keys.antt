-- ===== src/Remediation/Persistence/Keys.antt =====
-- persistence.go, `parseFullKey` and `makeFullKey`, and the keys of remediationpolicy_ratelimit.go.
use dot_ai_controller.Prelude.{
  ℕ, zero, suc, ◌≡◌, ◌≢◌, refl, sym, ap, ◌∙◌, false, some, List, [], ◌∷◌, ◌++◌, Text, text_eq,
  nat_eq, extend, split_n, split_n-cut, has_byte, join, arith,
}
use dot_ai_controller.Remediation.Owner.{
  slash, Cluster, ObjectReference, resolve_owner_for_rate_limiting, object_identifier,
  get_rate_limit_key,
}
use dot_ai_controller.Remediation.Persistence.{FullKey, of_parts, parse_full_key, make_full_key}

of_parts-last :
    (ns name obj_ns identifier : Text)
    → of_parts (ns ∷ name ∷ obj_ns ∷ split_n slash identifier 1)
      ≡ some
          (record { policy_ns = ns; policy_name = name; short_key = obj_ns ++ slash ∷ identifier })
unfolding split_n join
of_parts-last ns name obj_ns [] = refl
of_parts-last ns name obj_ns (c ∷ s) = refl

-- A full key is taken apart into what it was made of, if the names have no slash and the short key has
-- one after a namespace; what follows, the identifier, may have more.
pub parse-make_full_key :
    (ns name obj_ns identifier : Text)
    → has_byte slash ns ≡ false
    → has_byte slash name ≡ false
    → has_byte slash obj_ns ≡ false
    → parse_full_key (make_full_key ns name (obj_ns ++ slash ∷ identifier))
      ≡ some
          (record { policy_ns = ns; policy_name = name; short_key = obj_ns ++ slash ∷ identifier })
unfolding parse_full_key make_full_key
parse-make_full_key ns name obj_ns identifier a b c =
    rw
      (
        split_n-cut slash ns (name ++ slash ∷ (obj_ns ++ slash ∷ identifier)) 2 a,
        split_n-cut slash name (obj_ns ++ slash ∷ identifier) 1 b,
        split_n-cut slash obj_ns identifier 0 c,
      )
      (of_parts-last ns name obj_ns identifier)

join-extend_part : (sep c : ℕ) (ps : List Text) → ps ≢ [] → join sep (extend c ps) ≡ c ∷ join sep ps
unfolding join
join-extend_part sep c [] h = absurd (h refl)
join-extend_part sep c (p ∷ []) h = refl
join-extend_part sep c (p ∷ q ∷ ps) h = refl

split_n-ne-nil : (sep : ℕ) (s : Text) (n : ℕ) → split_n sep s (suc n) ≢ []
unfolding split_n
split_n-ne-nil sep [] zero h = cc
split_n-ne-nil sep (c ∷ s) zero h = cc
split_n-ne-nil sep [] (suc n) h = cc
split_n-ne-nil sep (c ∷ s) (suc n) h = ground (arith, split_n-ne-nil sep s (suc n))

join-one : (sep : ℕ) (p : Text) → join sep (p ∷ []) ≡ p
unfolding join
join-one sep p = refl

join-empty : (sep : ℕ) (ps : List Text) → ps ≢ [] → join sep ([] ∷ ps) ≡ sep ∷ join sep ps
unfolding join
join-empty sep [] h = absurd (h refl)
join-empty sep (p ∷ ps) h = refl

join-split_n : (sep : ℕ) (s : Text) (n : ℕ) → join sep (split_n sep s (suc n)) ≡ s
unfolding split_n
join-split_n sep [] zero = join-one sep []
join-split_n sep (c ∷ s) zero = join-one sep (c ∷ s)
join-split_n sep [] (suc n) = join-one sep []
join-split_n sep (c ∷ s) (suc n) = ground (
  arith,
  join-split_n sep s n,
  join-split_n sep s (suc n),
  join-empty sep (split_n sep s (suc n)) (split_n-ne-nil sep s n),
  join-extend_part sep c (split_n sep s (suc (suc n))) (split_n-ne-nil sep s (suc n)),
)

some-injective : {a b : FullKey} → some a ≡ some b → a ≡ b
some-injective h = cc

of_parts-join :
    (ps : List Text) (key : Text) (k : FullKey)
    → join slash ps ≡ key
    → of_parts ps ≡ some k
    → make_full_key k.policy_ns k.policy_name k.short_key ≡ key
unfolding join make_full_key
of_parts-join [] key k e h = absurd (cc)
of_parts-join (a ∷ []) key k e h = absurd (cc)
of_parts-join (a ∷ b ∷ []) key k e h = absurd (cc)
of_parts-join (a ∷ b ∷ c ∷ []) key k e h = absurd (cc)
of_parts-join (a ∷ b ∷ c ∷ d ∷ ps) key k e h =
    ap (λ (r : FullKey). make_full_key r.policy_ns r.policy_name r.short_key)
      (sym (some-injective h))
    ∙ e

-- A key that can be taken apart is the one that its parts make.
pub make-parse_full_key :
    (key : Text) (k : FullKey)
    → parse_full_key key ≡ some k
    → make_full_key k.policy_ns k.policy_name k.short_key ≡ key
unfolding parse_full_key
make-parse_full_key key k h = of_parts-join (split_n slash key 4) key k (join-split_n slash key 3) h

pub cut-injective :
    (a b s t : Text)
    → has_byte slash a ≡ false
    → has_byte slash b ≡ false
    → a ++ slash ∷ s ≡ b ++ slash ∷ t
    → (a ≡ b) × (s ≡ t)
unfolding has_byte
cut-injective [] [] s t ha hb h = ground arith
cut-injective [] (c ∷ b) s t ha hb h = ground arith
cut-injective (c ∷ a) [] s t ha hb h = ground arith
cut-injective (c ∷ a) (d ∷ b) s t ha hb h = ground (arith, cut-injective a b s t)

-- The key under which an event is limited, which is the key of its cooldown, is taken apart into
-- the policy and the rest, if the policy's name and the namespaces have no slash, so that a
-- persisted cooldown finds its policy's ConfigMap.
pub parse-get_rate_limit_key :
    (api : Cluster) (ns name : Text) (ref : ObjectReference)
    → has_byte slash ns ≡ false
    → has_byte slash name ≡ false
    → has_byte slash ref.namespace ≡ false
    → parse_full_key (get_rate_limit_key api ns name ref)
      ≡ some (record {
        policy_ns = ns;
        policy_name = name;
        short_key =
            ref.namespace ++ slash ∷ object_identifier (resolve_owner_for_rate_limiting api ref);
      })
unfolding get_rate_limit_key make_full_key
parse-get_rate_limit_key api ns name ref a b c =
    parse-make_full_key ns name ref.namespace
      (object_identifier (resolve_owner_for_rate_limiting api ref)) a b c
