-- ===== src/KnowledgeSource/Patterns/Matching.antt =====
-- What MatchingFiles and uniqueStrings of gitknowledgesource_patterns.go return.
use dot_ai_controller.Prelude.{
  Bool, true, false, not, ◌≡◌, refl, sym, ap, ◌↔◌, inl, inr, List, [], ◌∷◌, ◌++◌, map, Text,
  text_eq, text_dec, nat_eq, ◌==◌, if◌then◌else◌, In, trim_prefix, Result, ok, Bool-cases, bind-ok,
  In-keep, keep-In, In-append, append-In, arith,
}
use dot_ai_controller.Prelude.Map.{Map, lookup, insert, lookup-insert}
use dot_ai_controller.KnowledgeSource.Patterns.{
  PatternMatcher, MatchesSome, matches_any, matches_any_iff, is_seen, unique_from, unique_strings,
  with_slash, relative_files, glob_all, matching_files,
}

is_seen-insert :
    (a s : Text) (seen : Map Text Bool)
    → is_seen a (insert s true seen) ≡ (if s == a then true else is_seen a seen)
unfolding is_seen
is_seen-insert a s seen = ground (arith, lookup-insert s a true seen)

unique_from-In :
    (a : Text) (seen : Map Text Bool) (xs : List Text)
    → In a (unique_from seen xs)
    → In a xs × (is_seen a seen ≡ false)
unfolding unique_from
unique_from-In a seen [] m = elim m [ ]
unique_from-In a seen (x ∷ xs) m = elim (Bool-cases (is_seen x seen)) [
  | inl t ↦ let (here, h) = unique_from-In a seen xs (ground arith) in (inr here, h)
  | inr f ↦ elim (text_dec x a) [
    | yes e ↦ (inl e, rw (← e) f)
    | no n ↦
        let (here, h) = unique_from-In a (insert x true seen) xs (ground arith) in
        (inr here, ground (arith, is_seen-insert a x seen))
  ]
]

In-unique_from :
    (a : Text) (seen : Map Text Bool) (xs : List Text)
    → In a xs
    → is_seen a seen ≡ false
    → In a (unique_from seen xs)
unfolding unique_from
In-unique_from a seen [] m h = elim m [ ]
In-unique_from a seen (x ∷ xs) m h = elim (Bool-cases (is_seen x seen)) [
  | inl t ↦ ground (arith, In-unique_from a seen xs)
  | inr f ↦ elim (text_dec x a) [
    | yes e ↦ ground (arith)
    | no n ↦ ground (arith, In-unique_from a (insert x true seen) xs, is_seen-insert a x seen)
  ]
]

-- No text stands twice.
abbrev pub NoDuplicates : List Text → Type 0
NoDuplicates [] = Unit
NoDuplicates (x ∷ xs) = (¬ In x xs) × NoDuplicates xs

unique_from-NoDuplicates :
    (seen : Map Text Bool) (xs : List Text) → NoDuplicates (unique_from seen xs)
unfolding unique_from
unique_from-NoDuplicates seen [] = tt
unique_from-NoDuplicates seen (x ∷ xs) = elim (Bool-cases (is_seen x seen)) [
  | inl t ↦ rw (t, unique_from) (unique_from-NoDuplicates seen xs)
  | inr f ↦
      rw (f, unique_from)
        (
          λ m.
              let (here, h) = unique_from-In x (insert x true seen) xs m in
              absurd (ground (arith, is_seen-insert x x seen)),
          unique_from-NoDuplicates (insert x true seen) xs,
        )
]

is_seen-nil : (a : Text) → is_seen a [] ≡ false
unfolding is_seen lookup
is_seen-nil a = refl

unique_strings_iff : (a : Text) (xs : List Text) → In a (unique_strings xs) ↔ In a xs
unfolding unique_strings
unique_strings_iff a xs =
    (λ m. (unique_from-In a [] xs m).0, λ m. In-unique_from a [] xs m (is_seen-nil a))

In-map :
    (f : Text → Text) (a : Text) (xs : List Text)
    → In a (map f xs)
    → (x : Text) × In x xs × (f x ≡ a)
In-map f a [] m = elim m [ ]
In-map f a (x ∷ xs) (inl e) = (x, inl refl, e)
In-map f a (x ∷ xs) (inr m) = let (y, here, e) = In-map f a xs m in (y, inr here, e)

map-In : (f : Text → Text) (x : Text) (xs : List Text) → In x xs → In (f x) (map f xs)
map-In f x [] m = elim m [ ]
map-In f x (y ∷ xs) (inl e) = inl (ap f e)
map-In f x (y ∷ xs) (inr m) = inr (map-In f x xs m)

no_files : (a : Text) {fs : List Text} → ◌≡◌ {A = Result (List Text)} (ok []) (ok fs) → ¬ In a fs
no_files a {fs = []} h m = m
no_files a {fs = f ∷ fs} h m = absurd (ground arith)

ok_injective : {xs ys : List Text} → ◌≡◌ {A = Result (List Text)} (ok xs) (ok ys) → xs ≡ ys
ok_injective h = cc

same_files :
    (fg : Text → Result (List Text)) {x y : Text} {xs ys : List Text}
    → fg x ≡ ok xs
    → fg y ≡ ok ys
    → x ≡ y
    → ys ≡ xs
same_files fg p q e = cc

-- A file that one of the patterns finds below the base, and that is relative to it.
abbrev pub FoundBy : (Text → Result (List Text)) → Text → List Text → Text → Type 0
FoundBy filepath_glob base patterns path =
    (pattern : Text) × (files : List Text) × (file : Text) × In pattern patterns
    × (filepath_glob (base ++ pattern) ≡ ok files)
    × In file files
    × (trim_prefix file base ≡ path)

module _ (glob : Text → Text → Result Bool) where
  relative_files-In :
      (excludes : List Text) (base : Text) (files : List Text) (path : Text)
      → In path (relative_files glob excludes base files)
      → ((file : Text) × In file files × (trim_prefix file base ≡ path))
        × (¬ MatchesSome glob excludes path)
  unfolding relative_files
  relative_files-In excludes base files path m =
      let (here, kept) =
        In-keep (λ path. not (matches_any glob excludes path)) path
          (map (λ file. trim_prefix file base) files) m in
      (
        In-map (λ file. trim_prefix file base) path files here,
        λ some_match. ground (arith, (matches_any_iff glob excludes path).1 some_match),
      )

  In-relative_files :
      (excludes : List Text) (base : Text) (files : List Text) (file : Text)
      → In file files
      → ¬ MatchesSome glob excludes (trim_prefix file base)
      → In (trim_prefix file base) (relative_files glob excludes base files)
  unfolding relative_files
  In-relative_files excludes base files file m n =
      keep-In (λ path. not (matches_any glob excludes path)) (trim_prefix file base)
        (map (λ file. trim_prefix file base) files)
        (map-In (λ file. trim_prefix file base) file files m)
        (elim (Bool-cases (matches_any glob excludes (trim_prefix file base))) [
          | inl t ↦ absurd (n ((matches_any_iff glob excludes (trim_prefix file base)).0 t))
          | inr f ↦ rw f refl
        ])

  glob_all-cons :
      (fg : Text → Result (List Text)) (excludes : List Text) (base q : Text) (qs found : List Text)
      → glob_all glob fg excludes base (q ∷ qs) ≡ ok found
      → (files : List Text) × (rest : List Text) × (fg (base ++ q) ≡ ok files)
        × (glob_all glob fg excludes base qs ≡ ok rest)
        × (relative_files glob excludes base files ++ rest ≡ found)
  unfolding glob_all
  glob_all-cons fg excludes base q qs found e =
      let (files, p, e') = bind-ok (fg (base ++ q)) _ e in
      let (rest, r, last) = bind-ok (glob_all glob fg excludes base qs) _ e' in
      (files, rest, p, r, ground arith)

  glob_all-In :
      (fg : Text → Result (List Text)) (excludes : List Text) (base : Text) (patterns : List Text)
      (found : List Text) (path : Text)
      → glob_all glob fg excludes base patterns ≡ ok found
      → In path found
      → FoundBy fg base patterns path × (¬ MatchesSome glob excludes path)
  unfolding glob_all
  glob_all-In fg excludes base [] found path e m = absurd (no_files path e m)
  glob_all-In fg excludes base (q ∷ qs) found path e m =
      let (files, rest, p, r, whole) = glob_all-cons fg excludes base q qs found e in
      elim (In-append path (relative_files glob excludes base files) rest (rw (← whole) at m)) [
        | inl here ↦
            let ((file, is_file, cut), none_match) =
              relative_files-In excludes base files path here in
            ((q, files, file, inl refl, p, is_file, cut), none_match)
        | inr later ↦
            let ((q', files', file, is_pattern, p', is_file, cut), none_match) =
              glob_all-In fg excludes base qs rest path r later in
            ((q', files', file, inr is_pattern, p', is_file, cut), none_match)
      ]

  In-glob_all :
      (fg : Text → Result (List Text)) (excludes : List Text) (base : Text) (patterns : List Text)
      (found : List Text) (path : Text)
      → glob_all glob fg excludes base patterns ≡ ok found
      → FoundBy fg base patterns path
      → ¬ MatchesSome glob excludes path
      → In path found
  In-glob_all fg excludes base [] found path e f n = elim f.3 [ ]
  In-glob_all fg excludes base (q ∷ qs) found path e
        (q', files', file, is_pattern, p', is_file, cut) n =
      let (files, rest, p, r, whole) = glob_all-cons fg excludes base q qs found e in
      rw (← whole) (
        append-In path (relative_files glob excludes base files) rest (elim is_pattern [
          | inl same ↦ inl (
              let is_file : In file files =
                rw (sym (same_files fg p p' (ap (λ (x : Text). base ++ x) same))) is_file in
              rw (← cut) (
                In-relative_files excludes base files file is_file
                  (λ some_match. n (rw (← cut) some_match))))
          | inr later ↦ inr (
              In-glob_all fg excludes base qs rest path r
                (q', files', file, later, p', is_file, cut) n)
        ]))

  -- When MatchingFiles returns a list, no path stands twice in it, and a path stands in it exactly if one of
  -- the include patterns finds a file below the base path, with its slash, that is relative to it that path,
  -- and no exclude pattern matches the path.
  pub matching_files-exact :
      (fg : Text → Result (List Text)) (p : PatternMatcher) (base : Text) (paths : List Text)
      → matching_files glob fg p base ≡ ok paths
      → NoDuplicates paths
        × ((path : Text)
            → In path paths ↔ (
                FoundBy fg (with_slash base) p.includes path
                × (¬ MatchesSome glob p.excludes path)))
  unfolding matching_files unique_strings
  matching_files-exact fg p base paths e =
      let (found, g, last) =
        bind-ok (glob_all glob fg p.excludes (with_slash base) p.includes) _ e in
      rw (← ok_injective last) (
        unique_from-NoDuplicates [] found,
        λ path. (
          λ m.
              glob_all-In fg p.excludes (with_slash base) p.includes found path g
                ((unique_strings_iff path found).0 m),
          λ h.
              (unique_strings_iff path found).1
                (In-glob_all fg p.excludes (with_slash base) p.includes found path g h.0 h.1),
        ),
      )
