-- ===== src/Audit/Service/Counts.antt =====
-- When the service answers a page, and what its counts say: internal/audit/service.go, `List`.
use secure_file_storage_syst.Prelude.{
  ℕ, zero, suc, ◌^◌, ◌≤◌, ◌<◌, true, false, ◌≡◌, ◌↔◌, ◌⊎◌, sym, ap, subst, ◌∙◌, List, [], ◌∷◌,
  length, take, drop, ltb, arith, Bool-cases, inl, inr, Result, ok, err, is_ok,
}
use secure_file_storage_syst.Prelude.Bytes.{utf8}
use secure_file_storage_syst.Audit.{Event, Primitives}
use secure_file_storage_syst.Audit.Query.{Text, Query, Summary, summary}
use secure_file_storage_syst.Audit.Query.Pages.{newest_first, length-newest_first}
use secure_file_storage_syst.Audit.Query.Counts.{IsConsistent, summary_lem}
use secure_file_storage_syst.Audit.Service.{Service, Page, Error}
use secure_file_storage_syst.Audit.Service.Answers.{normalized, list_page, bad_range}
use secure_file_storage_syst.Audit.Service.Listing.{found_by, limit_lem, list_page_lem}

length-take-le : (n : ℕ) (xs : List Event) → length (take n xs) ≤ n
length-take-le zero xs = omega arith
length-take-le (suc n) [] = omega arith
length-take-le (suc n) (x ∷ xs) = omega (arith, length-take-le n xs)

page_in : Page → Result Error Page → Page
page_in default (ok page) = page
page_in default (err e) = default

ok-injective : (a b : Page) → Path (Result Error Page) (ok a) (ok b) → a ≡ b
unfolding page_in
ok-injective a b h = ap (page_in a) h

module _ (p : Primitives) (t : Text) where
  -- Of a log of less than 2^62 events `List` answers a page, with no index out of range, exactly when
  -- the trimmed search has at most 120 bytes and the two dates, where both are given, are in order.
  pub list_page_ok_iff :
      (q : Query) (now : ℕ) (s : Service)
      → q.limit < 2 ^ 64
      → q.offset < 2 ^ 64
      → length s.repository.events < 2 ^ 62
      → (is_ok (list_page p t q now s) ≡ true) ↔ (
          (length (utf8 (t.trim_space q.search)) ≤ 120)
          × ((q.from ≡ 0) ⊎ ((q.to ≡ 0) ⊎ (q.from ≤ q.to))))
  unfolding list_page normalized
  list_page_ok_iff q now s limit offset few =
      elim (Bool-cases (ltb 120 (length (utf8 (t.trim_space q.search))))) [
        | inl long ↦ ground (arith, long)
        | inr short ↦ elim (Bool-cases (bad_range p t q)) [
          | inl reversed ↦ ground (arith, short, reversed)
          | inr ordered ↦
              let (page, answer, events, total, counts) =
                list_page_lem p t q now s limit offset few short ordered in
              (λ _. ground arith, λ _. ap is_ok answer)
        ]
      ]

  tests_of_ok :
      (q : Query) (now : ℕ) (s : Service) (page : Page)
      → list_page p t q now s ≡ ok page
      → (ltb 120 (length (utf8 (t.trim_space q.search))) ≡ false) × (bad_range p t q ≡ false)
  unfolding list_page normalized
  tests_of_ok q now s page answer =
      let good = ap is_ok answer in
      elim (Bool-cases (ltb 120 (length (utf8 (t.trim_space q.search))))) [
        | inl long ↦ absurd (ground (arith, long, good))
        | inr short ↦ elim (Bool-cases (bad_range p t q)) [
          | inl reversed ↦ absurd (ground (arith, short, reversed, good))
          | inr ordered ↦ (short, ordered)
        ]
      ]

  unfoldable pub CountsAgree : Service → Page → Type 0
  CountsAgree s page =
      IsConsistent page.summary page.summary.distinct_actors
      × (page.summary.matching ≡ page.total)
      × (page.total ≤ page.summary.total)
      × (page.summary.total ≡ length s.repository.events)
      × (length page.events ≤ 100)

  counts_lem :
      (q : Query) (now : ℕ) (s : Service) (page : Page)
      → q.limit < 2 ^ 64
      → page.events
        ≡ take (normalized p t s q).limit (drop (normalized p t s q).offset (found_by p t q s))
      → page.total ≡ length (found_by p t q s)
      → page.summary ≡ summary t (normalized p t s q) now s.repository
      → CountsAgree s page
  unfolding CountsAgree found_by
  counts_lem q now s page limit events total counts =
      let asked = normalized p t s q in
      let found = newest_first t asked s.repository.events in
      let (consistent, matching, whole) = summary_lem t asked now s.repository in
      let stretch = length-take-le asked.limit (drop asked.offset found) in
      let few = length-newest_first t asked s.repository.events in
      let bounded = limit_lem p t s q limit in
      (
        subst (λ (c : Summary). IsConsistent c c.distinct_actors) (sym counts) consistent,
        ap (λ (c : Summary). c.matching) counts ∙ matching ∙ sym total,
        omega (arith, total, few, ap (λ (c : Summary). c.total) counts, whole),
        ap (λ (c : Summary). c.total) counts ∙ whole,
        omega (arith, ap (length {A = Event}) events, stretch, bounded),
      )

  -- A page's counts agree with its events: as many events match as the search finds in all pages,
  -- no more than the log has; the outcomes, the actors, the recent and the risky events are among them,
  -- every denied or failed event is a risky one, and a page has at most 100 events. The log has
  -- less than 2^62 events.
  pub page_counts :
      (q : Query) (now : ℕ) (s : Service) (page : Page)
      → q.limit < 2 ^ 64
      → q.offset < 2 ^ 64
      → length s.repository.events < 2 ^ 62
      → list_page p t q now s ≡ ok page
      → CountsAgree s page
  page_counts q now s page limit offset few answer =
      let (tests_short, tests_ordered) = tests_of_ok q now s page answer in
      let (answered_page, known, events, total, counts) =
        list_page_lem p t q now s limit offset few tests_short tests_ordered in
      let same = ok-injective answered_page page (sym known ∙ answer) in
      subst (CountsAgree s) same (counts_lem q now s answered_page limit events total counts)
