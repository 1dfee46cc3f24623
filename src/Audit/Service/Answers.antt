-- ===== src/Audit/Service/Answers.antt =====
-- internal/audit/service.go: the alerts, `List` and `Export`.

use secure_file_storage_syst.Prelude.{
  ℕ, ◌-◌, String, Bool, not, ◌&&◌, ◌||◌, Option, none, some, List, [], ◌∷◌, ◌++◌, length, ltb, leb,
  if◌then◌else◌, ◌==◌, string_eq, nat_eq, Result, ok, err,
}
use secure_file_storage_syst.Prelude.Bytes.{utf8}
use secure_file_storage_syst.Prelude.Int64.{Int64, lt64}
use secure_file_storage_syst.Prelude.Time.{minutes}
use secure_file_storage_syst.Audit.{Event, Primitives, Verification, verify}
use secure_file_storage_syst.Audit.Query.{Text, Query, Summary, list, summary}
use secure_file_storage_syst.Audit.Service.{
  Error, invalid_search, invalid_date_range, invalid_query, panic, Service, Alert, Page, safe,
  network_fingerprint,
}

module _ (p : Primitives) (t : Text) where
  abbrev pub recent_denials : String → ℕ → Query
  recent_denials action now = record {
    search = "";
    actor_id = "";
    action = action;
    resource_type = "";
    outcome = "denied";
    network_address = "";
    from = now - minutes 15;
    to = 0;
    limit = 1;
    offset = 0;
  }

  abbrev pub sign_in_alert : Alert
  sign_in_alert = record {
    id = "repeated-authentication-denials";
    alert_type = "authentication";
    severity = "high";
    title = "Repeated sign-in denials";
    detail = "Five or more denied authentication attempts occurred within 15 minutes.";
    count = 0;
    detected_at = 0;
  }

  abbrev pub download_alert : Alert
  download_alert = record {
    id = "repeated-download-denials";
    alert_type = "file_access";
    severity = "high";
    title = "Repeated download denials";
    detail = "Three or more denied file-download attempts occurred within 15 minutes.";
    count = 0;
    detected_at = 0;
  }

  abbrev pub integrity_alert : ℕ → Alert
  integrity_alert now = record {
    id = "audit-integrity-failure";
    alert_type = "audit_integrity";
    severity = "critical";
    title = "Audit integrity verification failed";
    detail = "The ordered audit chain no longer agrees with its checkpoint.";
    count = 1;
    detected_at = now;
  }

  -- An alert when a count reaches its threshold.
  abbrev pub alert_at : ℕ → Alert → ℕ → Option (List Event × ℕ) → Option (List Alert)
  alert_at threshold alert now none = none
  alert_at threshold alert now (some (events, n)) =
      some (if leb threshold n then record alert { count = n; detected_at = now } ∷ [] else [])

  abbrev pub raised_all :
      Option (List Alert) → Option (List Alert) → List Alert → Option (List Alert)
  raised_all none downloads broken = none
  raised_all (some sign_ins) none broken = none
  raised_all (some sign_ins) (some downloads) broken = some (sign_ins ++ (downloads ++ broken))

  -- The alerts on denials and on the chain. Without an anchor and an outbox there are no others.
  unfoldable pub alerts : Verification → ℕ → Service → Option (List Alert)
  alerts v now s =
      raised_all
        (alert_at 5 sign_in_alert now (list t (recent_denials "AUTHENTICATION" now) s.repository))
        (alert_at 3 download_alert now (list t (recent_denials "FILE_DOWNLOAD" now) s.repository))
        (if not v.valid then integrity_alert now ∷ [] else [])

  abbrev pub bad_range : Query → Bool
  bad_range q = not (q.from == 0) && not (q.to == 0) && ltb q.to q.from

  -- The query that `List` runs.
  unfoldable pub normalized : Service → Query → Query
  normalized s q = record {
    search = t.trim_space q.search;
    actor_id = safe p t q.actor_id;
    action = safe p t q.action;
    resource_type = safe p t q.resource_type;
    outcome = safe p t q.outcome;
    network_address = network_fingerprint p t s q.network_address;
    from = q.from;
    to = q.to;
    limit = if lt64 q.limit 1 || lt64 100 q.limit then 50 else q.limit;
    offset = if lt64 q.offset 0 then 0 else q.offset;
  }

  -- The answer of `List`, unless an index was out of range.
  abbrev pub page_or_panic :
      Query
      → Summary
      → Verification
      → Option (List Event × ℕ)
      → Option (List Alert)
      → Result Error Page
  page_or_panic q counts v none raised = err panic
  page_or_panic q counts v (some found) none = err panic
  page_or_panic q counts v (some (events, total)) (some raised) = ok (record {
    events = events;
    total = total;
    limit = q.limit;
    offset = q.offset;
    verification = v;
    summary = counts;
    alerts = raised;
  })

  -- `List`, at a time.
  unfoldable pub list_page : Query → ℕ → Service → Result Error Page
  list_page q now s =
      let asked = normalized s q in
      let v = verify p s.keys s.repository in
      if ltb 120 (length (utf8 asked.search))
      then err invalid_search
      else if bad_range q
      then err invalid_date_range
      else page_or_panic asked (summary t asked now s.repository) v (list t asked s.repository)
          (alerts v now s)

  -- The query that `Export` runs.
  unfoldable pub export_query : Service → Query → Int64 → Query
  export_query s q maximum = record {
    search = t.trim_space q.search;
    actor_id = safe p t q.actor_id;
    action = safe p t q.action;
    resource_type = safe p t q.resource_type;
    outcome = safe p t q.outcome;
    network_address = network_fingerprint p t s q.network_address;
    from = q.from;
    to = q.to;
    limit = if lt64 maximum 1 || lt64 10000 maximum then 5000 else maximum;
    offset = 0;
  }

  abbrev pub events_or_panic :
      Verification → Option (List Event × ℕ) → Result Error (List Event × Verification)
  events_or_panic v none = err panic
  events_or_panic v (some (events, total)) = ok (events, v)

  unfoldable pub export : Query → Int64 → Service → Result Error (List Event × Verification)
  export q maximum s =
      if ltb 120 (length (utf8 (t.trim_space q.search))) || bad_range q
      then err invalid_query
      else events_or_panic (verify p s.keys s.repository)
          (list t (export_query s q maximum) s.repository)
