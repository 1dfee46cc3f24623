-- ===== src/ProtectedStore/Worker/Examples.antt =====
-- The scheduled deletion of internal/protectedstore/lifecycle.go at a state with a file that is due and
-- one under a legal hold. In place of SHA-256 stands a function that writes a letter for each byte.
use secure_file_storage_syst.Prelude.{
  String, ◌≡◌, refl, sym, subst, ◌∙◌, true, false, none, some, [], ◌∷◌, arith, ◌==◌, string_eq,
  nat_eq, beq_refl, if◌then◌else◌,
}
use secure_file_storage_syst.Prelude.Map.{lookup, lookup-All}
use secure_file_storage_syst.Prelude.Bytes.{Bytes, utf8, utf8_char}
use secure_file_storage_syst.ProtectedStore.{LifecycleFile, MemoryRepository, new_memory_repository}
use secure_file_storage_syst.ProtectedStore.Lifecycle.{is_eligible}
use secure_file_storage_syst.ProtectedStore.Worker.{
  Primitives, Run, due, process_due_purges, purge_digest, purge_operation_ids, scheduled_key,
}
use secure_file_storage_syst.ProtectedStore.Worker.Purging.{IsReady, operation_of}
use secure_file_storage_syst.ProtectedStore.Worker.Due.{OperationsDiffer}
use secure_file_storage_syst.ProtectedStore.Worker.Scheduled.{AllReady, PurgesDue, worker-PurgesDue}

letters : Bytes → String
letters [] = ""
letters (b ∷ bytes) = String.◌∷◌ (if b == 49 then "a" else "b") (letters bytes)

abbrev plain : Primitives
plain = record { sha256_hex = letters; format_time = λ time. "then"; trim_space = λ value. value }

abbrev due_file : LifecycleFile
due_file = record {
  file = record {
    file_id = "f1";
    owner_id = "al";
    name = "n";
    current_version_id = "v1";
    created_at = 0;
    updated_at = 0;
  };
  deleted_at = some 1000;
  purge_after = some 2000;
  retention_until = none;
  legal_hold = false;
  legal_hold_reason = "";
  purged_at = none;
}

abbrev held_file : LifecycleFile
held_file = record due_file {
  file = record due_file.file { file_id = "f2" };
  legal_hold = true;
  legal_hold_reason = "case";
}

abbrev state : MemoryRepository
state = record new_memory_repository { lifecycle = ("f1", due_file) ∷ ("f2", held_file) ∷ [] }

abbrev run : Run
run = record { drawn = λ id. true; clock = λ id. 5500 }

due_lem :
    (id : String) (f : LifecycleFile)
    → lookup id state.lifecycle ≡ some f
    → is_eligible 5000 f ≡ true
    → due_file ≡ f
unfolding is_eligible
due_lem id f found =
    lookup-All (λ (e : String × LifecycleFile). is_eligible 5000 e.1 ≡ true → due_file ≡ e.1) id
      state.lifecycle f (λ eligible. refl, (λ eligible. absurd (ground (arith, eligible)), tt))
      found

due_file-IsReady : IsReady plain run 5000 state due_file
unfolding lookup operation_of purge_operation_ids purge_digest scheduled_key utf8 utf8_char
due_file-IsReady = record {
  drawn = refl;
  later = omega arith;
  operation_id = _;
  event_id = _;
  accepted = refl;
  unused = refl;
}

state-AllReady : AllReady plain run 5000 state
unfolding AllReady
state-AllReady id f found eligible =
    subst (IsReady plain run 5000 state) (due_lem id f found eligible) due_file-IsReady

state-OperationsDiffer : OperationsDiffer plain 5000 state.lifecycle
unfolding OperationsDiffer
state-OperationsDiffer i j f g f_found g_found f_due g_due apart =
    let same = sym (due_lem i f f_found f_due) ∙ due_lem j g g_found g_due in
    let alike =
      subst (λ (h : LifecycleFile). (f.file_id == h.file_id) ≡ true) same (beq_refl f.file_id) in
    absurd (ground (arith, alike, apart))

worker-PurgesDue_example :
    PurgesDue plain run 5000 state (process_due_purges plain run 25 5000 state)
unfolding lookup due is_eligible
worker-PurgesDue_example =
    worker-PurgesDue plain run 5000 state 25 (omega arith) (omega arith) (refl, (refl, tt))
      (refl, (refl, tt)) state-AllReady state-OperationsDiffer
