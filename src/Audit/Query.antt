-- ===== src/Audit/Query.antt =====
-- internal/audit/memory_repository.go: the searches of the log, `List` and `Summary`. What Go's
-- strings package does with letters and spaces is a parameter.
pub mod Pages
pub mod Counts
use Prim.Native.String.{◌++◌ as str_append}
use secure_file_storage_syst.Prelude.{
  ℕ, zero, suc, ◌+◌, ◌-◌, String, Bool, true, false, not, ◌&&◌, ◌||◌, Option, none, some, List, [],
  ◌∷◌, length, take, drop, ltb, leb, if◌then◌else◌, ◌==◌, string_eq, nat_eq,
}
use secure_file_storage_syst.Prelude.Map.{Map, insert}
use secure_file_storage_syst.Prelude.Bytes.{Bytes}
use secure_file_storage_syst.Prelude.Int64.{Int64, add64, lt64}
use secure_file_storage_syst.Prelude.Time.{hours}
use secure_file_storage_syst.Audit.{Event, MemoryRepository}

-- What the searches take from Go's strings.
pub record Text : Type 0 where
  pub to_lower : String → String
  pub contains : String → String → Bool  -- the text, what is sought
  pub equal_fold : String → String → Bool
  pub trim_space : String → String
  pub first_bytes : ℕ → String → String  -- value[:n]
  pub base64_raw_url : Bytes → String

pub record Query : Type 0 where
  pub search : String
  pub actor_id : String
  pub action : String
  pub resource_type : String
  pub outcome : String
  pub network_address : String
  pub from : ℕ
  pub to : ℕ
  pub limit : Int64
  pub offset : Int64

pub record Summary : Type 0 where
  pub total : ℕ
  pub matching : ℕ
  pub successful : ℕ
  pub denied : ℕ
  pub failed : ℕ
  pub last_24_hours : ℕ
  pub distinct_actors : ℕ
  pub high_risk : ℕ

abbrev spaced : List String → String
spaced [] = ""
spaced (word ∷ []) = word
spaced (word ∷ next ∷ words) = str_append word (str_append " " (spaced (next ∷ words)))

unfoldable pub high_risk : Event → Bool
high_risk e =
    e.outcome == "failed"
    || e.outcome == "denied"
    || e.action == "ACCOUNT_STATUS_UPDATED"
    || e.action == "OWNER_QUOTA_UPDATED"
    || e.action == "FILE_GRANT_REVOKED"
    || e.action == "FILE_CRYPTOGRAPHICALLY_DELETED"
    || e.action == "LEGAL_HOLD_UPDATED"

-- xs[lo:hi], or the panic of indices that are out of range.
unfoldable pub slice {ℓ} : {A : Type ℓ} → ℕ → ℕ → List A → Option (List A)
slice lo hi xs =
    if leb lo hi && leb hi (length xs) then some (take (hi - lo) (drop lo xs)) else none

-- The stretch of the matches that a query asks for. `none` is a runtime panic.
unfoldable pub page_of : Query → List Event → Option (List Event × ℕ)
page_of q matches =
    let total = length matches in
    let sum = add64 q.offset q.limit in
    let end = if lt64 total sum then total else sum in
    if not (lt64 q.offset total)
    then some ([], total)
    else elim (slice q.offset end matches) [ none ↦ none | some page ↦ some (page, total) ]

abbrev pub get_elem? {ℓ} : {A : Type ℓ} → List A → ℕ → Option A
get_elem? [] i = none
get_elem? (x ∷ xs) zero = some x
get_elem? (x ∷ xs) (suc i) = get_elem? xs i

-- The counts so far, and the actors met.
abbrev pub Actors : Type 0
Actors = Map String Unit

abbrev pub Tally : Type 0
Tally = Summary × Actors

abbrev pub count_outcome : Event → Summary → Summary
count_outcome e s =
    if e.outcome == "success"
    then record s { successful = s.successful + 1 }
    else if e.outcome == "denied"
    then record s { denied = s.denied + 1 }
    else if e.outcome == "failed"
    then record s { failed = s.failed + 1 }
    else s

abbrev pub count_recent : Event → ℕ → Summary → Summary
count_recent e now s =
    if not (ltb (e.occurred_at + hours 24) now)
    then record s { last_24_hours = s.last_24_hours + 1 }
    else s

abbrev pub count_risk : Event → Summary → Summary
count_risk e s = if high_risk e then record s { high_risk = s.high_risk + 1 } else s

-- What the loop does with an event that matches.
unfoldable pub tallied : ℕ → Event → Tally → Tally
tallied now e (s, actors) = (
  count_risk e (count_recent e now (count_outcome e (record s { matching = s.matching + 1 }))),
  if not (e.actor_id == "") then insert e.actor_id tt actors else actors,
)

module _ (t : Text) where
  -- The parts of an event that a search reads.
  unfoldable pub joined : Event → String
  joined e = t.to_lower (
      spaced (
        e.action ∷ e.actor_id ∷ e.resource_type ∷ e.resource_id ∷ e.outcome ∷ e.reason_code
        ∷ e.correlation_id ∷ e.network_source ∷ []))

  unfoldable pub matches_query : Query → Event → Bool
  matches_query q e =
      let search = t.to_lower q.search in
      (search == "" || t.contains (joined e) search)
      && (q.actor_id == "" || t.equal_fold e.actor_id q.actor_id)
      && (q.action == "" || t.equal_fold e.action q.action)
      && (q.resource_type == "" || t.equal_fold e.resource_type q.resource_type)
      && (q.outcome == "" || t.equal_fold e.outcome q.outcome)
      && (q.network_address == "" || e.network_source == q.network_address)
      && (q.from == 0 || not (ltb e.occurred_at q.from))
      && (q.to == 0 || not (ltb q.to e.occurred_at))

  -- The loop of `List`, from the index below `n` down to 0.
  unfoldable pub matches_below : ℕ → Query → List Event → List Event
  matches_below zero q events = []
  matches_below (suc index) q events =
      let rest = matches_below index q events in
      elim (get_elem? events index) [
        | none ↦ rest
        | some e ↦ if matches_query q e then e ∷ rest else rest
      ]

  unfoldable pub list : Query → MemoryRepository → Option (List Event × ℕ)
  list q r = page_of q (matches_below (length r.events) q r.events)

  -- One turn of the loop of `Summary`.
  unfoldable pub count : Query → ℕ → Event → Tally → Tally
  count q now e tally = if not (matches_query q e) then tally else tallied now e tally

  unfoldable pub count_all : Query → ℕ → List Event → Tally → Tally
  count_all q now [] tally = tally
  count_all q now (e ∷ es) tally = count_all q now es (count q now e tally)

  unfoldable pub summary : Query → ℕ → MemoryRepository → Summary
  summary q now r =
      let empty : Summary = record {
        total = length r.events;
        matching = 0;
        successful = 0;
        denied = 0;
        failed = 0;
        last_24_hours = 0;
        distinct_actors = 0;
        high_risk = 0;
      } in
      let (s, actors) = count_all q now r.events (empty, []) in
      record s { distinct_actors = length actors }
