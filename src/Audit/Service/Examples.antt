-- ===== src/Audit/Service/Examples.antt =====
-- The theorems on the service of internal/audit at a log of one event, under a keyring of two keys.
-- In place of HMAC-SHA-256 stands the function that gives the message back; texts are compared as
-- they are.
use secure_file_storage_syst.Prelude.{
  String, ◌≡◌, ◌↔◌, ◌⊎◌, refl, true, false, some, [], ◌∷◌, ◌==◌, string_eq, arith, inr, find,
  length, ◌≤◌, ok, is_ok, ltb, Bool-cases,
}
use secure_file_storage_syst.Prelude.Map.{Map, lookup}
use secure_file_storage_syst.Prelude.Bytes.{Bytes, utf8, utf8_char}
use secure_file_storage_syst.Audit.{
  Event, MemoryRepository, Primitives, new_memory_repository, append, append_new, sealed,
}
use secure_file_storage_syst.Audit.Chain.{append_all, history_verifies}
use secure_file_storage_syst.Audit.Chain.Keyrings.{Extends}
use secure_file_storage_syst.Audit.Query.{Text, Query}
use secure_file_storage_syst.Audit.Query.Pages.{newest_first, length-newest_first}
use secure_file_storage_syst.Audit.Service.{Service, Page, no_event, safe}
use secure_file_storage_syst.Audit.Service.Answers.{normalized, list_page}
use secure_file_storage_syst.Audit.Service.Listing.{found_by, list_page_lem}
use secure_file_storage_syst.Audit.Service.Counts.{CountsAgree, list_page_ok_iff, page_counts}
use secure_file_storage_syst.Audit.Service.Pages.{read_pages, pages_cover}
use secure_file_storage_syst.Audit.Service.Keyring.{IsKept, IsKey, start}
use secure_file_storage_syst.Audit.Service.Start.{IsStarted, start_verifies}

abbrev plain : Primitives
plain = record { hmac = λ key message. message; genesis_mac = 0 ∷ []; format_time = λ time. "now" }

abbrev verbatim : Text
verbatim = record {
  to_lower = λ value. value;
  contains = λ value sought. value == sought;
  equal_fold = λ a b. a == b;
  trim_space = λ value. value;
  first_bytes = λ n value. value;
  base64_raw_url = λ bytes. "b";
}

abbrev eight : Bytes → Bytes
eight rest = 7 ∷ 7 ∷ 7 ∷ 7 ∷ 7 ∷ 7 ∷ 7 ∷ 7 ∷ rest

abbrev key : Bytes
key = eight (eight (eight (eight [])))

abbrev old_keys : Map String Bytes
old_keys = ("v1", key) ∷ []

abbrev all_keys : Map String Bytes
all_keys = ("v1", key) ∷ ("v2", key) ∷ []

abbrev upload : Event
upload = record no_event {
  event_id = "a1";
  occurred_at = 2;
  actor_id = "al";
  action = "UP";
  outcome = "success";
  key_version = "v1";
}

abbrev log : MemoryRepository
log = append_all plain old_keys (upload ∷ []) (new_memory_repository plain)

abbrev service : Service
service = record { repository = log; keys = old_keys; current_key_version = "v1" }

abbrev denials : Query
denials = record {
  search = "";
  actor_id = "";
  action = "";
  resource_type = "";
  outcome = "denied";
  network_address = "";
  from = 0;
  to = 0;
  limit = 1;
  offset = 0;
}

length-log : length log.events ≡ 1
unfolding append_all append append_new sealed new_memory_repository find
length-log = refl

length-found : length (found_by plain verbatim denials service) ≤ 1
unfolding found_by
length-found = omega (
  arith,
  length-newest_first verbatim (normalized plain verbatim service denials) log.events,
  length-log,
)

short : ltb 120 (length (utf8 "")) ≡ false
unfolding utf8
short = refl

list_page_ok_iff_example : (is_ok (list_page plain verbatim denials 9 service) ≡ true) ↔ (
    (length (utf8 "") ≤ 120)
    × ((denials.from ≡ 0) ⊎ ((denials.to ≡ 0) ⊎ (denials.from ≤ denials.to))))
list_page_ok_iff_example =
    list_page_ok_iff plain verbatim denials 9 service (omega arith) (omega arith)
      (omega (arith, length-log))

abbrev first_page : (page : Page) × (list_page plain verbatim denials 9 service ≡ ok page)
first_page =
    let (page, answer, rest, more, others) =
      list_page_lem plain verbatim denials 9 service (omega arith) (omega arith)
        (omega (arith, length-log)) short refl in
    (page, answer)

page_counts_example : CountsAgree plain verbatim service first_page.0
page_counts_example =
    page_counts plain verbatim denials 9 service first_page.0 (omega arith) (omega arith)
      (omega (arith, length-log)) first_page.1

pages_cover_example :
    read_pages plain verbatim 2 denials 9 service
    ≡ some (newest_first verbatim (normalized plain verbatim service denials) log.events)
pages_cover_example =
    pages_cover plain verbatim 2 denials 9 service (omega arith) (omega arith) (omega arith)
      (omega (arith, length-log)) short refl (omega (arith, length-found))

log-IsKept : IsKept plain old_keys log
unfolding lookup
log-IsKept = record {
  verifies = history_verifies plain old_keys (upload ∷ []) (refl, tt);
  last_key = inr (unfold append_all append append_new sealed new_memory_repository find in refl);
}

old_keys-Extends : Extends old_keys all_keys
unfolding Extends lookup
old_keys-Extends v k h = ground (arith, Bool-cases ("v1" == v))

start_verifies_example :
    (e : Event) × (s : Service) × (start plain verbatim log "v2" all_keys (some (1 ∷ [])) 9
      ≡ (ok e, some s))
    × IsStarted plain verbatim log "v2" all_keys s
unfolding lookup IsKey safe utf8 utf8_char
start_verifies_example =
    start_verifies plain verbatim log "v2" old_keys all_keys key (1 ∷ []) 9 (refl, (refl, tt))
      ((refl, refl, refl), ((refl, refl, refl), tt)) old_keys-Extends refl log-IsKept
