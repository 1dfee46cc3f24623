-- ===== src/ProtectedStore/Worker/Purging.antt =====
-- What the scheduled deletion of internal/protectedstore/lifecycle.go does to the files that are due,
-- and to the others.
use secure_file_storage_syst.Prelude.{
  ℕ, ◌+◌, ◌≤◌, String, true, false, ◌≡◌, refl, sym, ap, subst, ◌∙◌, none, some, List, [], ◌∷◌,
  length, All, All-mono, arith, ◌==◌, string_eq, beq_refl, Result, ok,
}
use secure_file_storage_syst.Prelude.Map.{Map, lookup, insert, lookup-insert, lookup-insert_same}
use secure_file_storage_syst.Prelude.Sort.{Pairwise}
use secure_file_storage_syst.Prelude.Time.{truncate}
use secure_file_storage_syst.ProtectedStore.{Error, LifecycleFile, PurgeResult, MemoryRepository}
use secure_file_storage_syst.ProtectedStore.Lifecycle.{purge, purge_now, purged, is_eligible}
use secure_file_storage_syst.ProtectedStore.Worker.{
  Primitives, Run, WorkerResult, purge_operation_ids, purge_audited, scheduled_key, process,
  process_all, purge_under, after_purge,
}

eligible_later :
    (now at : ℕ) (f : LifecycleFile) → now ≤ at → is_eligible now f ≡ true → is_eligible at f ≡ true
unfolding is_eligible
eligible_later now at f later h = ground arith

purge_eligible :
    (f : LifecycleFile) (operation_id : String) (at : ℕ) (r : MemoryRepository)
    → lookup f.file_id r.lifecycle ≡ some f
    → lookup operation_id r.purges ≡ none
    → is_eligible at f ≡ true
    → purge f.owner_id f.file_id operation_id at r
      ≡ purge_now f.owner_id f.file_id operation_id at r f
unfolding purge is_eligible
purge_eligible f operation_id at r found unused h =
    ground (arith, found, unused, h, beq_refl f.owner_id)

-- Two files under different identifiers.
abbrev pub Apart : LifecycleFile → LifecycleFile → Type 0
Apart f g = (f.file_id == g.file_id) ≡ false

pub Apart-sym : (f g : LifecycleFile) → Apart f g → Apart g f
Apart-sym f g h =
    ground (arith, h, string_eq.beq_iff f.file_id g.file_id, string_eq.beq_iff g.file_id f.file_id)

still_missing :
    (key other : String) (new : PurgeResult) (m : Map String PurgeResult)
    → (key == other) ≡ false
    → lookup other m ≡ none
    → lookup other (insert key new m) ≡ none
still_missing key other new m apart missing =
    ground (arith, apart, missing, lookup-insert key other new m)

module _ (p : Primitives) where
  -- The operation under which a file is deleted, as long as the service accepts its key.
  unfoldable pub operation_of : LifecycleFile → Result Error (String × String)
  operation_of f = purge_operation_ids p f.owner_id f.file_id (scheduled_key p f)

  unfoldable pub OperationsApart : LifecycleFile → LifecycleFile → Type 0
  OperationsApart f g =
      (a b c d : String)
      → operation_of f ≡ ok (a, b)
      → operation_of g ≡ ok (c, d)
      → (a == c) ≡ false

  -- Two files under different identifiers and with different operations.
  abbrev pub Separate : LifecycleFile → LifecycleFile → Type 0
  Separate f g = Apart f g × OperationsApart f g

  pub Separate-sym : (f g : LifecycleFile) → Separate f g → Separate g f
  unfolding OperationsApart
  Separate-sym f g h = (
    Apart-sym f g h.0,
    λ a b c d first second.
        ground (arith, h.1 c d a b second first, string_eq.beq_iff a c, string_eq.beq_iff c a),
  )

module _ (p : Primitives) (run : Run) (now : ℕ) where
  -- A file that can be purged in a state: an identifier is drawn for its event, the clock does not run
  -- back, and its operation is new.
  pub record IsReady (r : MemoryRepository) (f : LifecycleFile) : Type 0 where
    pub drawn : run.drawn f.file_id ≡ true
    pub later : now ≤ truncate (run.clock f.file_id)
    pub operation_id : String
    pub event_id : String
    pub accepted : operation_of p f ≡ ok (operation_id, event_id)
    pub unused : lookup operation_id r.purges ≡ none

  pub record IsDue (r : MemoryRepository) (f : LifecycleFile) : Type 0 where
    pub found : lookup f.file_id r.lifecycle ≡ some f
    pub eligible : is_eligible now f ≡ true
    pub ready : IsReady r f

  abbrev pub purged_by_run : LifecycleFile → LifecycleFile
  purged_by_run f = purged f (truncate (run.clock f.file_id))

  purge_audited_lem :
      (f : LifecycleFile) (r : MemoryRepository) (h : IsDue r f)
      → purge_audited p f.owner_id f.file_id (scheduled_key p f) (truncate (run.clock f.file_id)) r
        ≡ purge_now f.owner_id f.file_id h.ready.operation_id (truncate (run.clock f.file_id)) r f
  unfolding purge_audited operation_of
  purge_audited_lem f r h =
      let at = truncate (run.clock f.file_id) in
      ap (purge_under f.owner_id f.file_id at r) h.ready.accepted
      ∙ purge_eligible f h.ready.operation_id at r h.found h.ready.unused
          (eligible_later now at f h.ready.later h.eligible)

  -- The state after the purge of one file.
  abbrev purged_state : (f : LifecycleFile) (r : MemoryRepository) → IsDue r f → MemoryRepository
  purged_state f r h =
      (purge_now f.owner_id f.file_id h.ready.operation_id (truncate (run.clock f.file_id)) r f).1

  process_lem :
      (f : LifecycleFile) (result : WorkerResult) (r : MemoryRepository) (h : IsDue r f)
      → process p run now f (result, r)
        ≡ (record result { completed = result.completed + 1 }, purged_state f r h)
  unfolding process
  process_lem f result r h =
      rw (h.ready.drawn)
        (ap (after_purge p f now (result, r)) (purge_audited_lem f r h) ∙ unfold purge_now in refl)

  state_lem :
      (f : LifecycleFile) (r : MemoryRepository) (h : IsDue r f)
      → ((purged_state f r h).lifecycle ≡ insert f.file_id (purged_by_run f) r.lifecycle)
        × ((op : String)
            → (h.ready.operation_id == op) ≡ false
            → lookup op r.purges ≡ none
            → lookup op (purged_state f r h).purges ≡ none)
  unfolding purge_now
  state_lem f r h =
      (refl, λ op other unused. still_missing h.ready.operation_id op _ r.purges other unused)

  IsDue-after :
      (f g : LifecycleFile) (r : MemoryRepository) (h : IsDue r f)
      → Separate p f g
      → IsDue r g
      → IsDue (purged_state f r h) g
  unfolding OperationsApart
  IsDue-after f g r h (apart, differ) due_g =
      let (lifecycle, purges) = state_lem f r h in
      record {
        found =
            ap (lookup g.file_id) lifecycle
            ∙ ground (
              arith,
              apart,
              due_g.found,
              lookup-insert f.file_id g.file_id (purged_by_run f) r.lifecycle,
            );
        eligible = due_g.eligible;
        ready = record {
          drawn = due_g.ready.drawn;
          later = due_g.ready.later;
          operation_id = due_g.ready.operation_id;
          event_id = due_g.ready.event_id;
          accepted = due_g.ready.accepted;
          unused =
              purges due_g.ready.operation_id (differ _ _ _ _ h.ready.accepted due_g.ready.accepted)
                due_g.ready.unused;
        };
      }

  IsDue-All :
      (f : LifecycleFile) (fs : List LifecycleFile) (r : MemoryRepository) (h : IsDue r f)
      → All (Separate p f) fs
      → All (IsDue r) fs
      → All (IsDue (purged_state f r h)) fs
  IsDue-All f [] r h apart due_fs = tt
  IsDue-All f (g ∷ fs) r h apart due_fs =
      (IsDue-after f g r h apart.0 due_fs.0, IsDue-All f fs r h apart.1 due_fs.1)

  -- What the worker leaves of some files: they are purged and counted, the others are as before.
  abbrev pub Purges :
      List LifecycleFile
      → WorkerResult
      → MemoryRepository
      → WorkerResult × MemoryRepository
      → Type 0
  Purges fs result r st =
      (st.0 ≡ record result { completed = result.completed + length fs })
      × All (λ (f : LifecycleFile). lookup f.file_id st.1.lifecycle ≡ some (purged_by_run f)) fs
      × ((id : String)
          → All (λ (f : LifecycleFile). (f.file_id == id) ≡ false) fs
          → lookup id st.1.lifecycle ≡ lookup id r.lifecycle)

  Purges-cons :
      (f : LifecycleFile) (fs : List LifecycleFile) (result : WorkerResult) (r : MemoryRepository)
      (h : IsDue r f) (st : WorkerResult × MemoryRepository)
      → All (Separate p f) fs
      → Purges fs (record result { completed = result.completed + 1 }) (purged_state f r h) st
      → Purges (f ∷ fs) result r st
  Purges-cons f fs result r h st apart (counted, gone, kept) =
      let (lifecycle, purges) = state_lem f r h in
      let one : (result.completed + 1) + length fs ≡ result.completed + length (f ∷ fs) =
        omega arith in
      (
        counted ∙ ap (λ (n : ℕ). record result { completed = n }) one,
        (
          kept f.file_id (All-mono fs (λ g a. Apart-sym f g a.0) apart)
              ∙ ap (lookup f.file_id) lifecycle
              ∙ lookup-insert_same f.file_id (purged_by_run f) r.lifecycle,
          gone,
        ),
        λ id others.
            kept id others.1
            ∙ ap (lookup id) lifecycle
            ∙ ground (arith, others.0, lookup-insert f.file_id id (purged_by_run f) r.lifecycle),
      )

  pub process_all_lem :
      (fs : List LifecycleFile) (result : WorkerResult) (r : MemoryRepository)
      → All (IsDue r) fs
      → Pairwise (Separate p) fs
      → Purges fs result r (process_all p run now fs (result, r))
  unfolding process_all
  process_all_lem [] result r due_fs apart = (
    ap (λ (n : ℕ). record result { completed = n }) {x = result.completed}
        {y = result.completed + 0} (omega arith),
    tt,
    λ id others. refl,
  )
  process_all_lem (f ∷ fs) result r due_fs apart =
      let h = due_fs.0 in
      let result' : WorkerResult = record result { completed = result.completed + 1 } in
      let rest =
        process_all_lem fs result' (purged_state f r h) (IsDue-All f fs r h apart.0 due_fs.1)
          apart.1 in
      subst
        (λ (st : WorkerResult × MemoryRepository).
          Purges (f ∷ fs) result r (process_all p run now fs st))
        (sym (process_lem f result r h))
        (Purges-cons f fs result r h (process_all p run now fs (result', purged_state f r h))
          apart.0 rest)
