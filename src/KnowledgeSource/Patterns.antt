-- ===== src/KnowledgeSource/Patterns.antt =====
-- internal/controller/gitknowledgesource_patterns.go: which files of a repository a source takes.
-- doublestar.Match and doublestar.FilepathGlob are parameters; filepath.ToSlash is the identity on Linux.
pub mod Matching
use dot_ai_controller.Prelude.{
  ℕ, Bool, true, false, not, ◌&&◌, ◌≡◌, refl, ap, ◌↔◌, inl, inr, none, some, List, [], ◌∷◌, ◌++◌,
  map, Text, codes, text_eq, text_dec, nat_eq, ◌==◌, if◌then◌else◌, any_of, keep, In, has_suffix,
  trim_prefix, Result, ok, err, ◌>>=◌, Bool-cases, any_of-In, In-any_of, In-keep, keep-In, arith,
}
use dot_ai_controller.Prelude.Map.{Map, lookup, insert}

pub record PatternMatcher : Type 0 where
  pub includes : List Text
  pub excludes : List Text

-- `err == nil && matched`
abbrev is_match : Result Bool → Bool
is_match (ok matched) = matched
is_match (err e) = false

to_slash : ℕ → ℕ
to_slash c = if c == 0x5c then 0x2f else c

-- Backslashes become slashes, and a leading slash goes.
unfoldable pub normalize : Text → Text
unfolding to_slash trim_prefix
normalize path = trim_prefix (map to_slash path) (codes "/")

-- `seen[s]`
is_seen : Text → Map Text Bool → Bool
is_seen s seen = elim (lookup s seen) [ none ↦ false | some b ↦ b ]

unique_from : Map Text Bool → List Text → List Text
unique_from seen [] = []
unique_from seen (s ∷ input) = elim (is_seen s seen) [
  | true ↦ unique_from seen input
  | false ↦ s ∷ unique_from (insert s true seen) input
]

unfoldable pub unique_strings : List Text → List Text
unfolding unique_from is_seen
unique_strings input = unique_from [] input

pub with_slash : Text → Text
unfolding has_suffix
with_slash base = if has_suffix base (codes "/") then base else base ++ codes "/"

module _ (glob : Text → Text → Result Bool) where
  abbrev pub matches_any : List Text → Text → Bool
  matches_any patterns path = any_of (λ pattern. is_match (glob pattern path)) patterns

  unfoldable pub matches : PatternMatcher → Text → Bool
  matches p path =
      matches_any p.includes (normalize path) && not (matches_any p.excludes (normalize path))

  unfoldable pub filter_files : PatternMatcher → List Text → List Text
  unfolding matches
  filter_files p files = keep (matches p) files

  abbrev pub MatchesSome : List Text → Text → Type 0
  MatchesSome patterns path = (pattern : Text) × In pattern patterns × (glob pattern path ≡ ok true)

  is_match-ok : (r : Result Bool) → is_match r ≡ true → r ≡ ok true
  is_match-ok (ok b) h = ap ok h
  is_match-ok (err e) h = cc

  matches_any_iff :
      (patterns : List Text) (path : Text)
      → (matches_any patterns path ≡ true) ↔ MatchesSome patterns path
  matches_any_iff patterns path = (
    λ h.
        let (q, m, t) = any_of-In (λ q. is_match (glob q path)) patterns h in
        (q, m, is_match-ok _ t),
    λ h. let (q, m, t) = h in In-any_of (λ q. is_match (glob q path)) q patterns m (rw t refl),
  )

  matches_sound :
      (p : PatternMatcher) (path : Text)
      → matches p path ≡ true
      → MatchesSome p.includes (normalize path) × (¬ MatchesSome p.excludes (normalize path))
  unfolding matches
  matches_sound p path h =
      let (out, back) = matches_any_iff p.includes (normalize path) in
      let (out', back') = matches_any_iff p.excludes (normalize path) in
      (out (ground arith), λ some_match. ground (arith, back' some_match))

  matches_complete :
      (p : PatternMatcher) (path : Text)
      → MatchesSome p.includes (normalize path)
      → ¬ MatchesSome p.excludes (normalize path)
      → matches p path ≡ true
  unfolding matches
  matches_complete p path h n =
      let (out, back) = matches_any_iff p.includes (normalize path) in
      let (out', back') = matches_any_iff p.excludes (normalize path) in
      elim (Bool-cases (matches_any p.excludes (normalize path))) [
        | inl t ↦ absurd (n (out' t))
        | inr f ↦ rw (back h, f) refl
      ]

  -- A file is taken exactly if it is one of the files, some include pattern matches its normalized path
  -- and no exclude pattern does; a pattern that is malformed matches nothing.
  pub filter_files_iff :
      (p : PatternMatcher) (files : List Text) (path : Text)
      → In path (filter_files p files) ↔ (
          In path files
          × MatchesSome p.includes (normalize path)
          × (¬ MatchesSome p.excludes (normalize path)))
  unfolding filter_files
  filter_files_iff p files path = (
    λ m.
        let (here, t) = In-keep (matches p) path files m in
        let (some_include, no_exclude) = matches_sound p path t in (here, some_include, no_exclude),
    λ h.
        let (here, some_include, no_exclude) = h in
        keep-In (matches p) path files here (matches_complete p path some_include no_exclude),
  )

  -- The files that FilepathGlob finds, relative to the base, less those that an exclude pattern matches.
  relative_files : List Text → Text → List Text → List Text
  unfolding trim_prefix
  relative_files excludes base files =
      keep (λ path. not (matches_any excludes path)) (map (λ file. trim_prefix file base) files)

  glob_all : (Text → Result (List Text)) → List Text → Text → List Text → Result (List Text)
  unfolding relative_files
  glob_all filepath_glob excludes base [] = ok []
  glob_all filepath_glob excludes base (pattern ∷ patterns) = do
    files ← filepath_glob (base ++ pattern)
    rest ← glob_all filepath_glob excludes base patterns
    ok (relative_files excludes base files ++ rest)

  unfoldable pub matching_files :
      (Text → Result (List Text)) → PatternMatcher → Text → Result (List Text)
  unfolding glob_all with_slash unique_strings
  matching_files filepath_glob p base_path = do
    found ← glob_all filepath_glob p.excludes (with_slash base_path) p.includes
    ok (unique_strings found)
