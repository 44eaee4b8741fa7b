-- ===== src/KnowledgeSource/Reconcile/Quiet.antt =====
-- What a reconciliation does without a sync.
use dot_ai_controller.Prelude.{
  nat_eq, ◌≡◌, refl, ◌∙◌, inl, inr, Bool, true, false, ◌||◌, Option, none, some, List, [], ◌∷◌,
  ◌++◌, Text, codes, ◌==◌, Result, ok, err, any_of, Bool-cases, Option-cases, text_eq, arith,
}
use dot_ai_controller.KnowledgeSource.Source.{GitKnowledgeSource}
use dot_ai_controller.KnowledgeSource.Client.{DeleteBySourceResponse}
use dot_ai_controller.KnowledgeSource.Sync.{SyncHost}
use dot_ai_controller.KnowledgeSource.Reconcile.{
  Action, emit, write_source, write_status, send_delete, sync, remove_lock, Cluster, after_delete,
  delete_documents, handle_deletion, policy_of, with_finalizer, reconcile_deletion,
  reconcile_finalizer,
}

abbrev pub is_sync : Action → Bool
is_sync (emit e) = false
is_sync (write_source s) = false
is_sync (write_status s) = false
is_sync (send_delete u t) = false
is_sync sync = true
is_sync remove_lock = false

pub true-ne-false : {b : Bool} → b ≡ false → ¬ (b ≡ true)
true-ne-false f t = cc

pub any_of-append :
    (p : Action → Bool) (xs ys : List Action) → any_of p (xs ++ ys) ≡ (any_of p xs || any_of p ys)
any_of-append p [] ys = refl
any_of-append p (x ∷ xs) ys = ground (arith, any_of-append p xs ys)

module _ (host : SyncHost) (cluster : Cluster) where
  delete_documents-quiet :
      (gks : GitKnowledgeSource) (r : Result Text)
      → any_of is_sync (delete_documents host cluster gks r) ≡ false
  unfolding delete_documents
  delete_documents-quiet gks (err e) = refl
  delete_documents-quiet gks (ok t) = rw (quiet _) refl
    where
      quiet :
          (o : Option DeleteBySourceResponse × Option Text)
          → is_sync (after_delete host cluster o) ≡ false
      quiet (r, none) = refl
      quiet (r, some e) = refl

  handle_deletion-quiet :
      (gks : GitKnowledgeSource) → any_of is_sync (handle_deletion host cluster gks) ≡ false
  unfolding handle_deletion
  handle_deletion-quiet gks = elim (Bool-cases (policy_of host cluster gks == codes "Retain")) [
    | inl e ↦ rw (e, handle_deletion) refl
    | inr e ↦ rw (e, handle_deletion) (delete_documents-quiet gks _)
  ]

  pub reconcile_deletion-quiet :
      (gks : GitKnowledgeSource)
      → any_of is_sync (reconcile_deletion host cluster gks).actions ≡ false
  unfolding reconcile_deletion
  reconcile_deletion-quiet gks = elim (Bool-cases gks.finalizer) [
    | inr e ↦ rw (e, reconcile_deletion) refl
    | inl e ↦ elim (Option-cases cluster.finalizer_write) [
      | inl w ↦ rw (e, w, reconcile_deletion, before_lock) refl
      | inr w ↦ rw (e, w.1, reconcile_deletion, written) refl
    ]
  ]
    where
      written :
          any_of is_sync (
            handle_deletion host cluster gks
            ++ write_source (with_finalizer host cluster false gks) ∷ [])
          ≡ false
      written =
          any_of-append is_sync (handle_deletion host cluster gks) _
          ∙ rw (handle_deletion-quiet gks) refl

      before_lock :
          any_of is_sync (
            (handle_deletion host cluster gks
              ++ write_source (with_finalizer host cluster false gks) ∷ [])
            ++ remove_lock ∷ [])
          ≡ false
      before_lock =
          any_of-append is_sync
            (handle_deletion host cluster gks
              ++ write_source (with_finalizer host cluster false gks) ∷ [])
            _
          ∙ rw written refl

  pub reconcile_finalizer-quiet :
      (gks : GitKnowledgeSource)
      → any_of is_sync (reconcile_finalizer host cluster gks).actions ≡ false
  unfolding reconcile_finalizer
  reconcile_finalizer-quiet gks = elim (Option-cases cluster.finalizer_write) [
    | inl w ↦ rw (w, reconcile_finalizer) refl
    | inr w ↦ rw (w.1, reconcile_finalizer) refl
  ]
