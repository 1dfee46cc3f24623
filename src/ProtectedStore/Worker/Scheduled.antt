-- ===== src/ProtectedStore/Worker/Scheduled.antt =====
-- A whole run of the scheduled deletion: internal/protectedstore/lifecycle.go,
-- `ProcessDuePurgesAudited`, with `EligibleForPurge` of memory_repository.go.
use secure_file_storage_syst.Prelude.{
  ℕ, ◌^◌, ◌≤◌, ◌<◌, String, true, false, ◌≡◌, sym, ap, subst, ◌∙◌, some, List, length, All,
  All-mono, All-both, arith, if◌then◌else◌, ◌==◌, string_eq, Bool-cases, inl, inr,
}
use secure_file_storage_syst.Prelude.Int64.{Int64, lt64, lt64_small}
use secure_file_storage_syst.Prelude.Map.{lookup, lookup-All}
use secure_file_storage_syst.Prelude.Keys.{Distinct}
use secure_file_storage_syst.Prelude.Sort.{sort, sort-All, All-of_sort, length-sort, sort-Pairwise}
use secure_file_storage_syst.Prelude.Time.{truncate}
use secure_file_storage_syst.ProtectedStore.{LifecycleFile, MemoryRepository}
use secure_file_storage_syst.ProtectedStore.Lifecycle.{is_eligible}
use secure_file_storage_syst.ProtectedStore.Worker.{
  Primitives, Run, WorkerResult, due, eligible_for_purge, process_all, process_files,
  process_due_purges, purge_first_of, at_most,
}
use secure_file_storage_syst.ProtectedStore.Worker.Purging.{
  Separate, Separate-sym, IsReady, IsDue, purged_by_run, process_all_lem,
}
use secure_file_storage_syst.ProtectedStore.Worker.Due.{
  due-All, All-of_due, entries_lookup, IsKeyed, zero_plus, OperationsDiffer, due-Pairwise,
}

at_most-all :
    (limit : Int64) (files : List LifecycleFile)
    → limit < 2 ^ 63
    → length files ≤ limit
    → at_most limit files ≡ files
at_most-all limit files small enough =
    let test = lt64_small limit (length files) small (omega arith) in
    ground (arith, test, Bool-cases (lt64 0 limit))

module _ (p : Primitives) (run : Run) (time : ℕ) (r : MemoryRepository) where
  -- The time of the run, in microseconds.
  abbrev pub now : ℕ
  now = truncate time

  -- The files that the worker lists, when the limit is no lower than their number.
  abbrev sorted : List LifecycleFile
  sorted = sort purge_first_of (due now r.lifecycle)

  -- Every file that is due can be purged.
  unfoldable pub AllReady : Type 0
  AllReady =
      (id : String) (f : LifecycleFile)
      → lookup id r.lifecycle ≡ some f
      → is_eligible now f ≡ true
      → IsReady p run now r f

  sorted-IsDue :
      Distinct r.lifecycle → IsKeyed r.lifecycle → AllReady → All (IsDue p run now r) sorted
  unfolding AllReady
  sorted-IsDue distinct keyed ready =
      sort-All purge_first_of (IsDue p run now r) (due now r.lifecycle) (
        due-All now (IsDue p run now r) r.lifecycle (
          All-mono r.lifecycle
            (λ e h eligible. record {
              found = ap (λ (j : String). lookup j r.lifecycle) (sym h.1) ∙ h.0;
              eligible = eligible;
              ready = ready e.0 e.1 h.0 eligible;
            })
            (All-both _ _ r.lifecycle (entries_lookup r.lifecycle distinct) keyed)))

  others_lem :
      (id : String) (f : LifecycleFile)
      → Distinct r.lifecycle
      → IsKeyed r.lifecycle
      → lookup id r.lifecycle ≡ some f
      → is_eligible now f ≡ false
      → All (λ (g : LifecycleFile). (g.file_id == id) ≡ false) sorted
  others_lem id f distinct keyed found spared =
      sort-All purge_first_of (λ (g : LifecycleFile). (g.file_id == id) ≡ false)
        (due now r.lifecycle)
        (due-All now (λ (g : LifecycleFile). (g.file_id == id) ≡ false) r.lifecycle
          (All-mono r.lifecycle (λ e h eligible. other e h.0 h.1 eligible)
            (All-both _ _ r.lifecycle (entries_lookup r.lifecycle distinct) keyed)))
    where
      other :
          (e : String × LifecycleFile)
          → lookup e.0 r.lifecycle ≡ some e.1
          → e.0 ≡ e.1.file_id
          → is_eligible now e.1 ≡ true
          → (e.1.file_id == id) ≡ false
      other e stored key eligible = elim (Bool-cases (e.1.file_id == id)) [
        | inl same ↦
            let met = key ∙ (string_eq.beq_iff e.1.file_id id).0 same in
            let twice = sym stored ∙ ap (λ (j : String). lookup j r.lifecycle) met ∙ found in
            absurd (ground (arith, twice, eligible, spared))
        | inr apart ↦ apart
      ]

  -- All due files are counted as completed and have a record that says when they were purged; the
  -- record of any other file is what it was.
  unfoldable pub PurgesDue : WorkerResult × MemoryRepository → Type 0
  PurgesDue (result, t) =
      (result ≡ record {
        examined = length (due now r.lifecycle);
        completed = length (due now r.lifecycle);
        failed = 0;
      })
      × ((id : String) (f : LifecycleFile)
          → lookup id r.lifecycle ≡ some f
          → lookup id t.lifecycle
            ≡ some (if is_eligible now f then purged_by_run p run now f else f))

  listed : Int64 → List LifecycleFile
  listed limit = eligible_for_purge now limit r

  listed_lem :
      (limit : Int64)
      → limit < 2 ^ 63
      → length (due now r.lifecycle) ≤ limit
      → listed limit ≡ sorted
  unfolding listed eligible_for_purge
  listed_lem limit small enough =
      at_most-all limit sorted small
        (omega (arith, enough, length-sort purge_first_of (due now r.lifecycle)))

  abbrev Gone : MemoryRepository → LifecycleFile → Type 0
  Gone t f = lookup f.file_id t.lifecycle ≡ some (purged_by_run p run now f)

  sorted-PurgesDue :
      Distinct r.lifecycle
      → IsKeyed r.lifecycle
      → AllReady
      → OperationsDiffer p now r.lifecycle
      → PurgesDue (process_files p run now r sorted)
  unfolding PurgesDue process_files
  sorted-PurgesDue distinct keyed ready differ =
      let apart = sort-Pairwise (Separate p) purge_first_of (Separate-sym p) (due now r.lifecycle) (
        due-Pairwise p now r.lifecycle r.lifecycle differ (entries_lookup r.lifecycle distinct)
          distinct keyed) in
      let number = length-sort purge_first_of (due now r.lifecycle) in
      let start : WorkerResult = record { examined = length sorted; completed = 0; failed = 0 } in
      let (counted, gone, kept) =
        process_all_lem p run now sorted start r (sorted-IsDue distinct keyed ready) apart in
      (
        counted ∙ (λ i. record {
          examined = number i;
          completed = (zero_plus (length sorted) ∙ number) i;
          failed = 0;
        }),
        λ id f found. elim (Bool-cases (is_eligible now f)) [
          | inl eligible ↦
              let t = (process_all p run now sorted (start, r)).1 in
              let done =
                All-of_due now (Gone t) r.lifecycle
                  (All-of_sort purge_first_of (Gone t) (due now r.lifecycle) gone) in
              let mine =
                lookup-All (λ (e : String × LifecycleFile). is_eligible now e.1 ≡ true → Gone t e.1)
                  id r.lifecycle f done found eligible in
              let key =
                lookup-All (λ (e : String × LifecycleFile). e.0 ≡ e.1.file_id) id r.lifecycle f
                  keyed found in
              ap (λ (j : String). lookup j t.lifecycle) key ∙ mine ∙ ground (arith, eligible)
          | inr spared ↦
              kept id (others_lem id f distinct keyed found spared) ∙ found ∙ ground (arith, spared)
        ],
      )

  -- A run of the worker that may take all due files purges each of them and no other: it counts all
  -- as completed and none as failed, a due file has a record that says when it was purged, and the
  -- record of any other file, one under a legal hold or an active retention included, is what it was.
  -- The records are distinct and each under its file's identifier, an identifier can be drawn for each
  -- due file, the clock does not run back during the run, and the operations of the due files are
  -- accepted, new and told apart.
  pub worker-PurgesDue :
      (limit : ℕ)
      → limit < 2 ^ 63
      → length (due now r.lifecycle) ≤ limit
      → Distinct r.lifecycle
      → IsKeyed r.lifecycle
      → AllReady
      → OperationsDiffer p now r.lifecycle
      → PurgesDue (process_due_purges p run limit time r)
  unfolding process_due_purges listed
  worker-PurgesDue limit small enough distinct keyed ready differ =
      subst (λ (fs : List LifecycleFile). PurgesDue (process_files p run now r fs))
        (sym (listed_lem limit small enough)) (sorted-PurgesDue distinct keyed ready differ)
