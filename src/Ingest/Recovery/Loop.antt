-- ===== src/Ingest/Recovery/Loop.antt =====
-- Following the loop of `NewManager` of internal/ingest/manager.go.
use secure_file_storage_syst.Prelude.{
  String, Bool, true, false, ◌≡◌, Option, none, some, List, [], ◌∷◌, ◌++◌, any, arith, ◌==◌,
  string_eq, nat_eq, beq_refl, Result, ok, err,
}
use secure_file_storage_syst.Ingest.{Error, PersistedRecord}
use secure_file_storage_syst.Ingest.Manager.{Manager, persist_lifecycle, update}
use secure_file_storage_syst.Ingest.Recovery.{
  Recovering, persisted_then, and_recover, unless_refused,
}

-- What holds of a state that a loop reaches, unless it fails.
abbrev pub Holds : (Recovering → Type 0) → Result Error Recovering → Type 0
Holds P (err e) = Unit
Holds P (ok st) = P st

pub persisted-Holds :
    (P : Recovering → Type 0) (next : Manager → Recovering) (x : Bool × Manager)
    → P (next x.1)
    → Holds P (persisted_then next x)
persisted-Holds P next (true, m) h = h
persisted-Holds P next (false, m) h = tt

pub refused-Holds :
    (P : Recovering → Type 0) (refused : Option Error) (x : Result Error Recovering)
    → Holds P x
    → Holds P (unless_refused refused x)
refused-Holds P (some e) x h = tt
refused-Holds P none x h = h

pub and_recover-Holds :
    (P : Recovering → Type 0) (x : Result Error Recovering)
    (next : Recovering → Result Error Recovering)
    → Holds P x
    → ((st : Recovering) → P st → Holds P (next st))
    → Holds P (and_recover x next)
and_recover-Holds P (err e) next h step = tt
and_recover-Holds P (ok st) next h step = step st h

pub persist_keeps :
    (recorded : Bool) (u : PersistedRecord) (m : Manager)
    → ((persist_lifecycle recorded u m).1.uploads ≡ m.uploads)
      × ((persist_lifecycle recorded u m).1.quarantine ≡ m.quarantine)
      × ((persist_lifecycle recorded u m).1.has_protected_store ≡ m.has_protected_store)
unfolding persist_lifecycle update
persist_keeps recorded u m = (ground arith, ground arith, ground arith)

abbrev pub named : String → List String → Bool
named id resume = any (λ (i : String). i == id) resume

pub named-snoc :
    (id new : String) (resume : List String)
    → named id resume ≡ true
    → named id (resume ++ new ∷ []) ≡ true
unfolding any
named-snoc id new [] h = absurd (ground arith)
named-snoc id new (i ∷ resume) h = ground (arith, named-snoc id new resume, h)

pub named-last : (id : String) (resume : List String) → named id (resume ++ id ∷ []) ≡ true
unfolding any
named-last id [] = ground (arith, beq_refl id)
named-last id (i ∷ resume) = ground (arith, named-last id resume)
