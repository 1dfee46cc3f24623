-- ===== src/Ingest/Manager/Inspection.antt =====
-- How a run of `inspect` of internal/ingest/manager.go ends.
use secure_file_storage_syst.Prelude.{
  String, ◌≡◌, refl, sym, ap, subst, ◌∙◌, Bool, true, false, not, Option, none, some, arith,
  if◌then◌else◌, string_eq, Bool-cases, inl, inr, beq_refl,
}
use secure_file_storage_syst.Prelude.Map.{Map, lookup, lookup-insert, lookup-delete}
use secure_file_storage_syst.Prelude.Bytes.{Bytes}
use secure_file_storage_syst.Ingest.{
  Status, accepted, rejected, failed, inspecting, PersistedRecord,
}
use secure_file_storage_syst.Ingest.Repository.{release_capacity, update_record}
use secure_file_storage_syst.Ingest.Manager.{
  Manager, ScanResult, Answers, put, update, settled, persist_lifecycle, protect, decided,
  is_accepted, publish, complete_inspection, inspect,
}
use secure_file_storage_syst.Ingest.Manager.Outcome.{
  IsTracked, HasEnded, IsPersisted, persist-IsPersisted, unless-HasEnded, protect-HasEnded,
  protection_status, final_status, recast,
}

decided-id :
    (scan : Option ScanResult) (has : Bool) (u : PersistedRecord) → (decided scan has u).id ≡ u.id
unfolding decided
decided-id none has u = refl
decided-id (some result) has u = ground arith

module _ (id object : String) where
  published :
      (u terminal : PersistedRecord) (m : Manager)
      → IsTracked id object u m
      → terminal.id ≡ id
      → terminal.quarantine_object ≡ object
      → IsTracked id object terminal (put id terminal m)
  published u terminal m t own its_object = record {
    found = ground (arith, lookup-insert id id terminal m.uploads, beq_refl id);
    own = own;
    its_object = its_object;
    known = t.known;
  }

  publish_refused-HasEnded :
      (a : Answers) (u terminal : PersistedRecord) (m : Manager)
      → IsTracked id object u m
      → is_accepted terminal.status ≡ false
      → HasEnded id object terminal.status none (publish a id terminal m)
  unfolding publish release_capacity
  publish_refused-HasEnded a u terminal m t refused = record {
    u = terminal;
    found = ground (arith, t.found, refused, lookup-insert id id terminal m.uploads, beq_refl id);
    status_is = refl;
    object_is = ground (
      arith,
      t.found,
      refused,
      t.its_object,
      beq_refl object,
      lookup-delete object object m.quarantine,
    );
    released =
        ground
          (arith, t.found, refused, beq_refl id, lookup-delete id id m.repository.reservations);
  }

  publish_plain-HasEnded :
      (a : Answers) (u terminal : PersistedRecord) (m : Manager)
      → IsTracked id object u m
      → terminal.status ≡ accepted
      → m.has_protected_store ≡ false
      → HasEnded id object accepted (lookup object m.quarantine) (publish a id terminal m)
  unfolding publish release_capacity
  publish_plain-HasEnded a u terminal m t fine alone = record {
    u = terminal;
    found =
        ground (arith, t.found, fine, alone, lookup-insert id id terminal m.uploads, beq_refl id);
    status_is = fine;
    object_is = ground (arith, t.found, fine, alone);
    released =
        ground
          (arith, t.found, fine, alone, beq_refl id, lookup-delete id id m.repository.reservations);
  }

  publish_protected-HasEnded :
      (a : Answers) (u terminal : PersistedRecord) (m : Manager)
      → IsTracked id object u m
      → terminal.id ≡ id
      → terminal.quarantine_object ≡ object
      → terminal.status ≡ accepted
      → m.has_protected_store ≡ true
      → HasEnded id object (protection_status a) none (publish a id terminal m)
  publish_protected-HasEnded a u terminal m t own its_object fine connected =
      let run : publish a id terminal m ≡ protect a id (put id terminal m) =
        unfold publish in ground (arith, t.found, fine, connected) in
      subst (λ (s : Manager). HasEnded id object (protection_status a) none s) (sym run)
        (protect-HasEnded id object a terminal (put id terminal m)
          (published u terminal m t own its_object) (ground (arith, fine)))

  -- What the object in quarantine is after a run.
  abbrev pub kept_by : Status → Option Bytes → Option Bytes
  kept_by status before = if is_accepted status then before else none

  -- The status that the decision leads to, once it is recorded.
  abbrev decided_status : Answers → Bool → Status
  decided_status a has_protected_store = elim a.scan [
    | none ↦ failed
    | some result ↦
        if not result.accepted
        then rejected
        else if has_protected_store
        then protection_status a
        else accepted
  ]

  -- A record that is persisted before it is published.
  persist_first :
      (recorded : Bool) (u terminal : PersistedRecord) (m : Manager)
      → IsTracked id object u m
      → terminal.id ≡ id
      → IsPersisted id object recorded u m (persist_lifecycle recorded terminal m)
  unfolding persist_lifecycle update update_record
  persist_first recorded u terminal m t own = record {
    answer = ground (arith, t.known, own);
    tracked = record {
      found = ground (arith, t.found);
      own = t.own;
      its_object = t.its_object;
      known = ground (
        arith,
        t.known,
        own,
        beq_refl id,
        lookup-insert terminal.id id terminal m.repository.records,
      );
    };
    same_quarantine = ground arith;
    same_store = ground arith;
  }

  accepted-HasEnded :
      (a : Answers) (has : Bool) (result : ScanResult) (u : PersistedRecord) (m : Manager)
      → IsTracked id object u m
      → m.has_protected_store ≡ has
      → a.scan ≡ some result
      → result.accepted ≡ true
      → HasEnded id object
          (decided_status a has)
          (kept_by (decided_status a has) (lookup object m.quarantine))
          (publish a id (decided (some result) has u) m)
  unfolding decided
  accepted-HasEnded a true result u m t store answer passed =
      let terminal : decided (some result) true u ≡ settled accepted 75 "policy_accepted" u =
        ground (arith, passed) in
      rw terminal (
        recast id object (protection_status a) (decided_status a true) none _ _
          (ground (arith, answer, passed)) (ground (arith, answer, passed))
          (publish_protected-HasEnded a u (settled accepted 75 "policy_accepted" u) m t t.own
            t.its_object refl store))
  accepted-HasEnded a false result u m t store answer passed =
      let terminal : decided (some result) false u ≡ settled accepted 100 "policy_accepted" u =
        ground (arith, passed) in
      rw terminal (
        recast id object accepted (decided_status a false) (lookup object m.quarantine) _ _
          (ground (arith, answer, passed)) (ground (arith, answer, passed))
          (publish_plain-HasEnded a u (settled accepted 100 "policy_accepted" u) m t refl store))

  -- The part of a run that follows the record of the decision.
  decision-HasEnded :
      (a : Answers) (has : Bool) (scan : Option ScanResult) (u : PersistedRecord) (m : Manager)
      → IsTracked id object u m
      → m.has_protected_store ≡ has
      → a.scan ≡ scan
      → HasEnded id object
          (decided_status a has)
          (kept_by (decided_status a has) (lookup object m.quarantine))
          (publish a id (decided scan has u) m)
  unfolding decided
  decision-HasEnded a has none u m t store answer =
      recast id object failed (decided_status a has) none _ _ (ground (arith, answer))
        (ground (arith, answer))
        (publish_refused-HasEnded a u (settled failed 100 "inspection_unavailable" u) m t refl)
  decision-HasEnded a has (some result) u m t store answer = elim (Bool-cases result.accepted) [
    | inr refused ↦
        let terminal : decided (some result) has u ≡ settled rejected 100 result.reason u =
          ground (arith, refused) in
        rw terminal (
          recast id object rejected (decided_status a has) none _ _
            (ground (arith, answer, refused)) (ground (arith, answer, refused))
            (publish_refused-HasEnded a u (settled rejected 100 result.reason u) m t refl))
    | inl passed ↦ accepted-HasEnded a has result u m t store answer passed
  ]

  complete-HasEnded :
      (a : Answers) (u : PersistedRecord) (m : Manager)
      → IsTracked id object u m
      → HasEnded id object
          (if a.completed_recorded then decided_status a m.has_protected_store else failed)
          (if a.completed_recorded
            then kept_by (decided_status a m.has_protected_store) (lookup object m.quarantine)
            else none)
          (complete_inspection a id m)
  unfolding complete_inspection
  complete-HasEnded a u m t =
      let has = m.has_protected_store in
      let terminal = decided a.scan has u in
      let x = persist_lifecycle a.completed_recorded terminal m in
      let p = persist_first a.completed_recorded u terminal m t (decided-id a.scan has u ∙ t.own) in
      rw (t.found, complete_inspection)
        (unless-HasEnded id object a.completed_recorded u m x (publish a id terminal)
          (decided_status a has) (kept_by (decided_status a has) (lookup object m.quarantine)) p
          (λ yes.
            recast id object (decided_status a has) (decided_status a has) _ _ _ refl
              (ap (λ (q : Map String Bytes). kept_by (decided_status a has) (lookup object q))
                p.same_quarantine)
              (decision-HasEnded a has a.scan u x.1 p.tracked p.same_store refl)))

  final_is :
      (a : Answers) (has' has : Bool)
      → has' ≡ has
      → (if a.started_recorded
          then if a.completed_recorded then decided_status a has' else failed
          else failed)
        ≡ final_status a has
  final_is a has' has same = ground arith

  kept_is :
      (a : Answers) (has' has : Bool) (before' before : Option Bytes)
      → has' ≡ has
      → before' ≡ before
      → (if a.started_recorded
          then if a.completed_recorded then kept_by (decided_status a has') before' else none
          else none)
        ≡ kept_by (final_status a has) before
  kept_is a has' has before' before same kept = ground arith

  -- A run of the inspection ends, whatever the scanner, the store and the audit hooks answer, in
  -- the status that their answers call for: failed where a transition cannot be recorded or the
  -- scanner fails, rejected where it rejects, and stored only where it accepts, the protection and
  -- the registration succeed and every transition is recorded. Unless the upload is accepted and
  -- there is no protected store, its plaintext is gone from quarantine; and it reserves no capacity.
  pub inspect_outcome :
      (a : Answers) (u : PersistedRecord) (m : Manager)
      → IsTracked id object u m
      → let status = final_status a m.has_protected_store in
        HasEnded id object status (kept_by status (lookup object m.quarantine)) (inspect a id m)
  unfolding inspect
  inspect_outcome a u m t =
      let u' = record u { status = inspecting; progress = 60 } in
      let x = persist_lifecycle a.started_recorded u' (put id u' m) in
      let p = persist-IsPersisted id object a.started_recorded u u' m t t.own t.its_object in
      let run =
        unless-HasEnded id object a.started_recorded u' m x (complete_inspection a id) _ _ p
          (λ yes. complete-HasEnded a u' x.1 p.tracked) in
      rw (t.found, inspect)
        (recast id object _ (final_status a m.has_protected_store) _ _ _
          (final_is a x.1.has_protected_store m.has_protected_store p.same_store)
          (kept_is a x.1.has_protected_store m.has_protected_store (lookup object x.1.quarantine)
            (lookup object m.quarantine) p.same_store (ap (lookup object) p.same_quarantine))
          run)
