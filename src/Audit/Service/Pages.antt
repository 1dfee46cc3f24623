-- ===== src/Audit/Service/Pages.antt =====
-- Reading a search page by page: internal/audit/service.go, `List`.
use secure_file_storage_syst.Prelude.{
  ℕ, zero, suc, ◌+◌, ◌*◌, ◌^◌, ◌≤◌, ◌<◌, false, ◌≡◌, refl, sym, ap, ◌∙◌, Option, none, some, List,
  [], ◌++◌, length, take, drop, ltb, arith, ok, err,
}
use secure_file_storage_syst.Prelude.Bytes.{utf8}
use secure_file_storage_syst.Prelude.Int64.{Int64, lt64}
use secure_file_storage_syst.Audit.{Event, Primitives, verify}
use secure_file_storage_syst.Audit.Query.{Text, Query, matches_query}
use secure_file_storage_syst.Audit.Query.Pages.{newest_first, list_lem, take-drop, take_whole}
use secure_file_storage_syst.Audit.Service.{Service, Page}
use secure_file_storage_syst.Audit.Service.Answers.{
  export, export_query, normalized, list_page, bad_range,
}
use secure_file_storage_syst.Audit.Service.Listing.{found_by, list_page_lem}

module _ (p : Primitives) (t : Text) where
  limit_kept :
      (s : Service) (q : Query) → 1 ≤ q.limit → q.limit ≤ 100 → (normalized p t s q).limit ≡ q.limit
  unfolding normalized lt64
  limit_kept s q low high = ground arith

  offset_kept :
      (s : Service) (q : Query) → q.offset < 2 ^ 63 → (normalized p t s q).offset ≡ q.offset
  unfolding normalized lt64
  offset_kept s q h = ground arith

  -- The events of the first pages: page `n` is asked for at the offset `n * limit`.
  unfoldable pub read_pages : ℕ → Query → ℕ → Service → Option (List Event)
  read_pages zero q now s = some []
  read_pages (suc n) q now s = elim (read_pages n q now s) [
    | none ↦ none
    | some seen ↦ elim (list_page p t (record q { offset = n * q.limit }) now s) [
      | err e ↦ none
      | ok page ↦ some (seen ++ page.events)
    ]
  ]

  read_more :
      (n : ℕ) (q : Query) (now : ℕ) (s : Service) (seen : List Event) (page : Page)
      → read_pages n q now s ≡ some seen
      → list_page p t (record q { offset = n * q.limit }) now s ≡ ok page
      → read_pages (suc n) q now s ≡ some (seen ++ page.events)
  unfolding read_pages
  read_more n q now s seen page rest answer = rw (read_pages, rest, answer) refl

  stretch_lem :
      (n : ℕ) (q : Query) (s : Service) (page : Page)
      → 1 ≤ q.limit
      → q.limit ≤ 100
      → n * q.limit < 2 ^ 63
      → page.events
        ≡ take (normalized p t s (record q { offset = n * q.limit })).limit (
            drop
              (normalized p t s (record q { offset = n * q.limit })).offset
              (found_by p t (record q { offset = n * q.limit }) s))
      → take q.limit (drop (n * q.limit) (found_by p t q s)) ≡ page.events
  unfolding found_by normalized newest_first matches_query
  stretch_lem n q s page low high bound events =
      let next : Query = record q { offset = n * q.limit } in
      sym (
        events
        ∙ ap (λ (k : ℕ). take k (drop (normalized p t s next).offset (found_by p t q s)))
            (limit_kept s next low high)
        ∙ ap (λ (k : ℕ). take q.limit (drop k (found_by p t q s))) (offset_kept s next bound))

  read_pages-take :
      (n : ℕ) (q : Query) (now : ℕ) (s : Service)
      → 1 ≤ q.limit
      → q.limit ≤ 100
      → n * q.limit < 2 ^ 63
      → length s.repository.events < 2 ^ 62
      → ltb 120 (length (utf8 (t.trim_space q.search))) ≡ false
      → bad_range p t q ≡ false
      → read_pages n q now s ≡ some (take (n * q.limit) (found_by p t q s))
  unfolding read_pages found_by
  read_pages-take zero q now s low high bound few short ordered =
      ap (λ (k : ℕ). some (take k (found_by p t q s))) {x = 0} {y = 0 * q.limit} (omega arith)
  read_pages-take (suc n) q now s low high bound few short ordered =
      let next : Query = record q { offset = n * q.limit } in
      let step : n * q.limit + q.limit ≡ suc n * q.limit = omega arith in
      let rest = read_pages-take n q now s low high (omega (arith, step)) few short ordered in
      let (page, answer, events, total, counts) =
        list_page_lem p t next now s (omega arith) (omega (arith, step)) few short ordered in
      let stretch : take q.limit (drop (n * q.limit) (found_by p t q s)) ≡ page.events =
        stretch_lem n q s page low high (omega (arith, step)) events in
      read_more n q now s (take (n * q.limit) (found_by p t q s)) page rest answer
      ∙ ap (λ (es : List Event). some (take (n * q.limit) (found_by p t q s) ++ es)) (sym stretch)
      ∙ ap some (take-drop (n * q.limit) q.limit (found_by p t q s))
      ∙ ap (λ (k : ℕ). some (take k (found_by p t q s))) step

  -- Reading on from the start finds all that a query matches, newest first, each event once: after
  -- `n` pages of `limit` events each, when that is at least as many as match, and below 2^63. The
  -- limit is one that the service accepts, the search is short, the dates are in order, and the log
  -- has less than 2^62 events.
  pub pages_cover :
      (n : ℕ) (q : Query) (now : ℕ) (s : Service)
      → 1 ≤ q.limit
      → q.limit ≤ 100
      → n * q.limit < 2 ^ 63
      → length s.repository.events < 2 ^ 62
      → ltb 120 (length (utf8 (t.trim_space q.search))) ≡ false
      → bad_range p t q ≡ false
      → length (found_by p t q s) ≤ n * q.limit
      → read_pages n q now s ≡ some (newest_first t (normalized p t s q) s.repository.events)
  unfolding found_by
  pages_cover n q now s low high bound few short ordered enough =
      read_pages-take n q now s low high bound few short ordered
      ∙ ap some (take_whole (n * q.limit) (found_by p t q s) enough)

  export_limit :
      (s : Service) (q : Query) (maximum : Int64)
      → maximum < 2 ^ 64
      → (export_query p t s q maximum).limit ≤ 10000
  unfolding export_query lt64
  export_limit s q maximum h = ground arith

  -- `Export` answers the newest matching events, up to its maximum, and whether the log verifies, where the
  -- search is short and the dates are in order.
  pub export_lem :
      (q : Query) (maximum : Int64) (s : Service)
      → maximum < 2 ^ 64
      → length s.repository.events < 2 ^ 62
      → ltb 120 (length (utf8 (t.trim_space q.search))) ≡ false
      → bad_range p t q ≡ false
      → export p t q maximum s
        ≡ ok (
          take
              (export_query p t s q maximum).limit
              (newest_first t (export_query p t s q maximum) s.repository.events),
          verify p s.keys s.repository,
        )
  unfolding export export_query newest_first
  export_lem q maximum s bounded few short ordered =
      let asked = export_query p t s q maximum in
      let found =
        list_lem t asked s.repository few (omega (arith, export_limit s q maximum bounded))
          (unfold export_query in omega arith) in
      rw (short, ordered, found) refl
