-- ===== src/KnowledgeSource/Reconcile/Guards.antt =====
-- When a reconciliation syncs.
use dot_ai_controller.Prelude.{
  map, not, nat_eq, ◌≡◌, refl, sym, ap, ◌∙◌, inl, inr, true, false, none, List, [], ◌∷◌, ◌++◌, ◌==◌,
  any_of, In, In-any_of, Bool-cases, Option-cases, text_eq,
}
use dot_ai_controller.KnowledgeSource.Source.{GitKnowledgeSource, phase_syncing}
use dot_ai_controller.KnowledgeSource.Sync.{SyncHost, Event}
use dot_ai_controller.KnowledgeSource.Sync.Run.{do_sync}
use dot_ai_controller.KnowledgeSource.Reconcile.{
  Action, emit, write_status, sync, Fetch, found, not_found, failed, Cluster, Reconciled,
  after_timeout, reconcile_deletion, reconcile_finalizer, reconcile_sync, reconcile_source,
  reconcile,
}
use dot_ai_controller.KnowledgeSource.Reconcile.Quiet.{
  is_sync, true-ne-false, any_of-append, reconcile_deletion-quiet, reconcile_finalizer-quiet,
}

module _ (host : SyncHost) (cluster : Cluster) where
  reconcile_sync-guard :
      (gks : GitKnowledgeSource)
      → any_of is_sync (reconcile_sync host cluster gks).actions ≡ true
      → cluster.syncing_write ≡ none
  unfolding reconcile_sync
  reconcile_sync-guard gks h = elim (Option-cases cluster.syncing_write) [
    | inl w ↦ w
    | inr w ↦ absurd (cc (rw (w.1, reconcile_sync) at h))
  ]

  -- The source whose phase is Syncing.
  abbrev pub shown_syncing : GitKnowledgeSource → GitKnowledgeSource
  shown_syncing gks = record gks { status = record gks.status { phase = phase_syncing } }

  -- The actions begin with the write of the phase Syncing, and the one sync comes right after it.
  abbrev pub BeginsSync : GitKnowledgeSource → List Action → Type 0
  BeginsSync gks actions =
      (rest : List Action) × (actions ≡ write_status (shown_syncing gks) ∷ sync ∷ rest)
      × (¬ In sync rest)

  -- What a sync needs: the source is not deleted, has the finalizer, TryLock takes its lock, and the phase Syncing
  -- is written.
  pub record IsReady (gks : GitKnowledgeSource) (actions : List Action) : Type 0 where
    pub kept : gks.deleting ≡ false
    pub finalizer : gks.finalizer ≡ true
    pub locked : cluster.lock_free ≡ true
    pub shown : cluster.syncing_write ≡ none
    pub order : BeginsSync gks actions

  emits-quiet : (events : List Event) → any_of is_sync (map emit events) ≡ false
  emits-quiet [] = refl
  emits-quiet (e ∷ events) = emits-quiet events

  after_timeout-quiet :
      (gks : GitKnowledgeSource) → any_of is_sync (after_timeout host cluster gks).1 ≡ false
  unfolding after_timeout
  after_timeout-quiet gks = elim (Bool-cases cluster.timed_out) [
    | inl t ↦ rw (t, after_timeout) refl
    | inr t ↦ rw (t, after_timeout) refl
  ]

  -- What follows a sync: its events, the one of a timeout, and the write of the status.
  tail-quiet :
      (events : List Event) (gks timed : GitKnowledgeSource)
      → any_of is_sync
          (map emit events ++ (after_timeout host cluster gks).1 ++ write_status timed ∷ [])
        ≡ false
  tail-quiet events gks timed =
      any_of-append is_sync (map emit events ++ (after_timeout host cluster gks).1)
        (write_status timed ∷ [])
      ∙ rw
          (
            any_of-append is_sync (map emit events) (after_timeout host cluster gks).1,
            emits-quiet events,
            after_timeout-quiet gks,
          )
          refl

  reconcile_sync-begins :
      (gks : GitKnowledgeSource)
      → cluster.syncing_write ≡ none
      → BeginsSync gks (reconcile_sync host cluster gks).actions
  unfolding reconcile_sync
  reconcile_sync-begins gks w =
      let spec_changed = not (gks.generation == gks.status.observed_generation) in
      let synced = do_sync host spec_changed (shown_syncing gks) in
      let rest : List Action =
        map emit synced.events
        ++ (after_timeout host cluster synced.source).1
        ++ write_status (after_timeout host cluster synced.source).0 ∷ [] in
      (
        rest,
        rw (w, reconcile_sync) refl,
        λ m.
            true-ne-false (tail-quiet synced.events synced.source _)
              (In-any_of is_sync sync rest m refl),
      )

  reconcile_source-IsReady :
      (gks : GitKnowledgeSource)
      → any_of is_sync (reconcile_source host cluster gks).actions ≡ true
      → IsReady gks (reconcile_source host cluster gks).actions
  unfolding reconcile_source
  reconcile_source-IsReady gks h = elim (Bool-cases gks.deleting) [
    | inl d ↦
        let e : reconcile_source host cluster gks ≡ reconcile_deletion host cluster gks =
          rw (d, reconcile_source) refl in
        absurd (true-ne-false (reconcile_deletion-quiet host cluster gks) (syncs e))
    | inr d ↦ elim (Bool-cases gks.finalizer) [
      | inr f ↦
          let e : reconcile_source host cluster gks ≡ reconcile_finalizer host cluster gks =
            rw (d, f, reconcile_source) refl in
          absurd (true-ne-false (reconcile_finalizer-quiet host cluster gks) (syncs e))
      | inl f ↦ elim (Bool-cases cluster.lock_free) [
        | inr l ↦ absurd (cc (rw (d, f, l, reconcile_source) at h))
        | inl l ↦
            let e : reconcile_source host cluster gks ≡ reconcile_sync host cluster gks =
              rw (d, f, l, reconcile_source) refl in
            record {
              kept = d;
              finalizer = f;
              locked = l;
              shown = reconcile_sync-guard gks (syncs e);
              order =
                  let b = reconcile_sync-begins gks (reconcile_sync-guard gks (syncs e)) in
                  (b.0, ap (λ (r : Reconciled). r.actions) e ∙ b.1, b.2);
            }
      ]
    ]
  ]
    where
      syncs :
          {r : Reconciled} → reconcile_source host cluster gks ≡ r → any_of is_sync r.actions ≡ true
      syncs e = ap (λ (r : Reconciled). any_of is_sync r.actions) (sym e) ∙ h

  reconcile-found :
      (gks : GitKnowledgeSource)
      → cluster.fetch ≡ found gks
      → reconcile host cluster ≡ reconcile_source host cluster gks
  unfolding reconcile
  reconcile-found gks e = rw (e, reconcile) refl

  -- A reconciliation syncs only a source that is there, is not being deleted and has the finalizer, so that its
  -- removal goes through handleDeletion, and whose lock TryLock takes; and it syncs once, right after its first
  -- action, the write of the phase Syncing, which the API accepts.
  pub reconcile-IsReady :
      In sync (reconcile host cluster).actions
      → (gks : GitKnowledgeSource) × (cluster.fetch ≡ found gks)
        × IsReady gks (reconcile host cluster).actions
  unfolding reconcile
  reconcile-IsReady m = by_fetch cluster.fetch refl
    where
      by_fetch :
          (f : Fetch)
          → cluster.fetch ≡ f
          → (gks : GitKnowledgeSource) × (cluster.fetch ≡ found gks)
            × IsReady gks (reconcile host cluster).actions
      by_fetch (found gks) e = (
        gks,
        e,
        rw (reconcile-found gks e)
            (reconcile_source-IsReady gks (In-any_of is_sync sync _ (rw (e, reconcile) at m) refl)),
      )
      by_fetch not_found e = elim (rw (e, reconcile) at m) [ ]
      by_fetch (failed x) e = elim (rw (e, reconcile) at m) [ ]
