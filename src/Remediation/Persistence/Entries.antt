-- ===== src/Remediation/Persistence/Entries.antt =====
-- persistence.go, `Sync`: one entry of a group.
use dot_ai_controller.Prelude.{
  ℕ, ◌≡◌, refl, sym, ap, ◌∙◌, true, false, Option, none, some, [], ◌∷◌, ◌++◌, Text, ◌==◌, ==-true,
  ==-false, text_eq, text_dec, if◌then◌else◌,
}
use dot_ai_controller.Prelude.Map.{Map, lookup, insert, lookup-insert, keep_if}
use dot_ai_controller.Remediation.Owner.{slash}
use dot_ai_controller.Remediation.Persistence.{FullKey, parse_full_key, make_full_key}
use dot_ai_controller.Remediation.Persistence.Keys.{make-parse_full_key}
use dot_ai_controller.Remediation.Persistence.Sync.{entries_of, policy_key, is_persisted, add_entry}

-- What a policy's group holds under a short key.
abbrev pub grouped : Text → Text → Text → Map Text (Map Text ℕ) → Option ℕ
grouped ns name short groups = lookup short (entries_of (lookup (policy_key ns name) groups))

abbrev pub or_else : Option ℕ → Option ℕ → Option ℕ
or_else none o = o
or_else (some n) o = some n

pub lookup-add :
    (key key' short short' : Text) (end : ℕ) (groups : Map Text (Map Text ℕ))
    → lookup short (
        entries_of
          (lookup key (insert key' (insert short' end (entries_of (lookup key' groups))) groups)))
      ≡ (if key' == key
          then (if short' == short then some end else lookup short (entries_of (lookup key groups)))
          else lookup short (entries_of (lookup key groups)))
lookup-add key key' short short' end groups =
    rw (lookup-insert key' key (insert short' end (entries_of (lookup key' groups))) groups)
      (elim (text_dec key' key) [
        | yes e ↦
            rw (==-true key' key e)
              (lookup-insert short' short end (entries_of (lookup key' groups)) ∙ rw e refl)
        | no n ↦ rw (==-false key' key n) refl
      ])

make-policy_key :
    (ns name short : Text) → make_full_key ns name short ≡ policy_key ns name ++ slash ∷ short
unfolding make_full_key
make-policy_key [] name short = refl
make-policy_key (c ∷ ns) name short = ap (λ (s : Text). c ∷ s) (make-policy_key ns name short)

-- Two short keys in the group of one policy are of two full keys.
pub same_full_key :
    (ns name short full_key : Text) (k : FullKey)
    → parse_full_key full_key ≡ some k
    → policy_key k.policy_ns k.policy_name ≡ policy_key ns name
    → k.short_key ≡ short
    → full_key ≡ make_full_key ns name short
same_full_key ns name short full_key k h e f =
    sym (make-parse_full_key full_key k h)
    ∙ make-policy_key k.policy_ns k.policy_name k.short_key
    ∙ ap (λ (s : Text). s ++ slash ∷ k.short_key) e
    ∙ ap (λ (s : Text). policy_key ns name ++ slash ∷ s) f
    ∙ sym (make-policy_key ns name short)

pub add_none_lem :
    (end : ℕ) (groups : Map Text (Map Text ℕ)) (ns name short : Text)
    → grouped ns name short (add_entry none end groups) ≡ grouped ns name short groups
unfolding add_entry
add_none_lem end groups ns name short = refl

pub merge-persisted :
    (shortest now end : ℕ) (key full_key : Text) (rest g : Option ℕ)
    → is_persisted shortest now end ≡ true
    → (full_key ≡ key → rest ≡ none)
    → or_else
        (keep_if (λ (k : Text) end'. is_persisted shortest now end') key rest)
        (if full_key == key then some end else g)
      ≡ or_else
          (keep_if
            (λ (k : Text) end'. is_persisted shortest now end')
            key
            (if full_key == key then some end else rest))
          g
merge-persisted shortest now end key full_key rest g p h = elim (text_dec full_key key) [
  | yes e ↦ rw (==-true full_key key e, h e, p) refl
  | no n ↦ rw (==-false full_key key n) refl
]

pub merge-dropped :
    (shortest now end : ℕ) (key full_key : Text) (rest g : Option ℕ)
    → is_persisted shortest now end ≡ false
    → (full_key ≡ key → rest ≡ none)
    → or_else (keep_if (λ (k : Text) end'. is_persisted shortest now end') key rest) g
      ≡ or_else
          (keep_if
            (λ (k : Text) end'. is_persisted shortest now end')
            key
            (if full_key == key then some end else rest))
          g
merge-dropped shortest now end key full_key rest g p h = elim (text_dec full_key key) [
  | yes e ↦ rw (==-true full_key key e, h e, p) refl
  | no n ↦ rw (==-false full_key key n) refl
]

pub grouped-nil : (ns name short : Text) → grouped ns name short [] ≡ none
unfolding lookup
grouped-nil ns name short = refl
