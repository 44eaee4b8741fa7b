-- ===== src/CapabilityScan/Filter/Diff.antt =====
-- capabilityscan_controller.go, `computeCapabilityDiff`: what is scanned and deleted at startup.
use dot_ai_controller.Prelude.{
  ◌≡◌, ap, ◌↔◌, inl, inr, true, not, Text, List, [], ◌∷◌, ◌++◌, In, In-keep, keep-In, In-append,
  append-In, keep, text_eq, Bool-cases, arith,
}
use dot_ai_controller.CapabilityScan.Filter.{list_contains, CapabilityDiff, compute_capability_diff}

contains-In : (id : Text) (l : List Text) → list_contains id l ≡ true → In id l
contains-In id [] h = absurd (ground arith)
contains-In id (x ∷ l) h = ground (arith, contains-In id l)

In-contains : (id : Text) (l : List Text) → In id l → list_contains id l ≡ true
In-contains id [] h = absurd h
In-contains id (x ∷ l) h = ground (arith, In-contains id l)

-- Those of one list that are not in another.
missing :
    (id : Text) (l other : List Text)
    → In id (keep (λ x. not (list_contains x other)) l) ↔ (In id l × (¬ In id other))
missing id l other = (to, λ h. from h.0 h.1)
  where
    to : In id (keep (λ x. not (list_contains x other)) l) → In id l × (¬ In id other)
    to h =
        let (m, f) = In-keep (λ x. not (list_contains x other)) id l h in
        (m, λ o. cc (ap not (In-contains id other o), f))

    from : In id l → (¬ In id other) → In id (keep (λ x. not (list_contains x other)) l)
    from m n =
        keep-In (λ x. not (list_contains x other)) id l m
          (elim (Bool-cases (list_contains id other)) [
            | inl t ↦ absurd (n (contains-In id other t))
            | inr f ↦ rw f
          ])

-- What is scanned is what the cluster has and the server has not; what is deleted is what the server
-- has and the cluster has not.
pub compute_capability_diff-exact :
    (cluster mcp : List Text) (id : Text)
    → (let d = compute_capability_diff cluster mcp in
        (In id d.to_scan ↔ (In id cluster × (¬ In id mcp)))
        × (In id d.to_delete ↔ (In id mcp × (¬ In id cluster))))
unfolding compute_capability_diff
compute_capability_diff-exact cluster mcp id = (missing id cluster mcp, missing id mcp cluster)

-- The server's capabilities once what is to be deleted is deleted and what is to be scanned is added.
abbrev pub apply_diff : List Text → CapabilityDiff → List Text
apply_diff mcp d = keep (λ id. not (list_contains id d.to_delete)) mcp ++ d.to_scan

-- The difference is enough: a server that carries it out has exactly the cluster's resources.
pub apply_diff_agrees :
    (cluster mcp : List Text) (id : Text)
    → In id (apply_diff mcp (compute_capability_diff cluster mcp)) ↔ In id cluster
apply_diff_agrees cluster mcp id = (to, from)
  where
    d : CapabilityDiff
    d = compute_capability_diff cluster mcp

    exact :
        (In id d.to_scan ↔ (In id cluster × (¬ In id mcp)))
        × (In id d.to_delete ↔ (In id mcp × (¬ In id cluster)))
    exact = compute_capability_diff-exact cluster mcp id

    to : In id (apply_diff mcp d) → In id cluster
    to h = elim (In-append id (keep (λ x. not (list_contains x d.to_delete)) mcp) d.to_scan h) [
      | inl stays ↦
          let (m, alive) = (missing id mcp d.to_delete).0 stays in
          elim (Bool-cases (list_contains id cluster)) [
            | inl t ↦ contains-In id cluster t
            | inr f ↦ absurd (alive (exact.1.1 (m, λ c. cc (In-contains id cluster c, f))))
          ]
      | inr new ↦ (exact.0.0 new).0
    ]

    from : In id cluster → In id (apply_diff mcp d)
    from c =
        append-In id (keep (λ x. not (list_contains x d.to_delete)) mcp) d.to_scan
          (elim (Bool-cases (list_contains id mcp)) [
            | inl t ↦ inl (
                (missing id mcp d.to_delete).1 (contains-In id mcp t, λ gone. (exact.1.0 gone).1 c))
            | inr f ↦ inr (exact.0.1 (c, λ m. cc (In-contains id mcp m, f)))
          ])
