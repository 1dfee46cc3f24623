-- ===== src/Audit/Service/Listing.antt =====
-- The pages that the service answers: internal/audit/service.go, `List`.
use secure_file_storage_syst.Prelude.{
  ℕ, String, is_some, ◌^◌, ◌≤◌, ◌<◌, true, false, ◌≡◌, refl, ap, Option, none, some, List, length,
  take, drop, ltb, arith, ok,
}
use secure_file_storage_syst.Prelude.Bytes.{utf8}
use secure_file_storage_syst.Prelude.Int64.{lt64}
use secure_file_storage_syst.Audit.{Event, Primitives, Verification, verify}
use secure_file_storage_syst.Audit.Query.{Text, Query, list, summary}
use secure_file_storage_syst.Audit.Query.Pages.{newest_first, list_lem}
use secure_file_storage_syst.Audit.Service.{Service, Page, Alert}
use secure_file_storage_syst.Audit.Service.Answers.{
  sign_in_alert, download_alert, normalized, list_page, page_or_panic, alerts, recent_denials,
  alert_at, raised_all, bad_range,
}

module _ (p : Primitives) (t : Text) where
  pub limit_lem :
      (s : Service) (q : Query)
      → q.limit < 2 ^ 64
      → (1 ≤ (normalized p t s q).limit) × ((normalized p t s q).limit ≤ 100)
  unfolding normalized lt64
  limit_lem s q h = ground arith

  offset_lem : (s : Service) (q : Query) → q.offset < 2 ^ 64 → (normalized p t s q).offset < 2 ^ 63
  unfolding normalized lt64
  offset_lem s q h = ground arith

  denials-some :
      (s : Service) (action : String) (now threshold : ℕ) (alert : Alert)
      → length s.repository.events < 2 ^ 62
      → is_some
          (alert_at p t threshold alert now (list t (recent_denials p t action now) s.repository))
        ≡ true
  denials-some s action now threshold alert few =
      ap (λ o. is_some (alert_at p t threshold alert now o))
        (list_lem t (recent_denials p t action now) s.repository few (omega arith) (omega arith))

  raised_all-some :
      (a b : Option (List Alert)) (c : List Alert)
      → is_some a ≡ true
      → is_some b ≡ true
      → (raised : List Alert) × (raised_all p t a b c ≡ some raised)
  raised_all-some none b c ha hb = absurd (ground arith)
  raised_all-some (some x) none c ha hb = absurd (ground arith)
  raised_all-some (some x) (some y) c ha hb = (_, refl)

  alerts-some :
      (v : Verification) (now : ℕ) (s : Service)
      → length s.repository.events < 2 ^ 62
      → (raised : List Alert) × (alerts p t v now s ≡ some raised)
  unfolding alerts
  alerts-some v now s few =
      raised_all-some _ _ _ (denials-some s "AUTHENTICATION" now 5 (sign_in_alert p t) few)
        (denials-some s "FILE_DOWNLOAD" now 3 (download_alert p t) few)

  -- The events that a query finds, newest first.
  unfoldable pub found_by : Query → Service → List Event
  found_by q s = newest_first t (normalized p t s q) s.repository.events

  abbrev answered : Query → ℕ → Service → List Alert → Page
  answered q now s raised = record {
    events = take (normalized p t s q).limit (drop (normalized p t s q).offset (found_by q s));
    total = length (found_by q s);
    limit = (normalized p t s q).limit;
    offset = (normalized p t s q).offset;
    verification = verify p s.keys s.repository;
    summary = summary t (normalized p t s q) now s.repository;
    alerts = raised;
  }

  page_lem :
      (q : Query) (now : ℕ) (s : Service) (raised : List Alert)
      → q.limit < 2 ^ 64
      → q.offset < 2 ^ 64
      → length s.repository.events < 2 ^ 62
      → alerts p t (verify p s.keys s.repository) now s ≡ some raised
      → page_or_panic p t
          (normalized p t s q)
          (summary t (normalized p t s q) now s.repository)
          (verify p s.keys s.repository)
          (list t (normalized p t s q) s.repository)
          (alerts p t (verify p s.keys s.repository) now s)
        ≡ ok (answered q now s raised)
  unfolding found_by
  page_lem q now s raised limit offset few known =
      let asked = normalized p t s q in
      let bounded = limit_lem s q limit in
      let found =
        list_lem t asked s.repository few (omega (arith, bounded)) (offset_lem s q offset) in
      rw (found, known) refl

  -- What a page answers, where the search is short and the dates are in order.
  pub list_page_lem :
      (q : Query) (now : ℕ) (s : Service)
      → q.limit < 2 ^ 64
      → q.offset < 2 ^ 64
      → length s.repository.events < 2 ^ 62
      → ltb 120 (length (utf8 (t.trim_space q.search))) ≡ false
      → bad_range p t q ≡ false
      → (page : Page) × (list_page p t q now s ≡ ok page)
        × (page.events
            ≡ take (normalized p t s q).limit (drop (normalized p t s q).offset (found_by q s)))
        × (page.total ≡ length (found_by q s))
        × (page.summary ≡ summary t (normalized p t s q) now s.repository)
  unfolding list_page normalized
  list_page_lem q now s limit offset few short ordered =
      let (raised, known) = alerts-some (verify p s.keys s.repository) now s few in
      let answer = page_lem q now s raised limit offset few known in
      (answered q now s raised, rw (short, ordered) answer, refl, refl, refl)
