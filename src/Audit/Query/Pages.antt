-- ===== src/Audit/Query/Pages.antt =====
-- The pages of a search: internal/audit/memory_repository.go, `List`.
use secure_file_storage_syst.Prelude.{
  ℕ, zero, suc, ◌+◌, ◌-◌, ◌^◌, ◌≤◌, ◌<◌, Bool, true, false, ◌≡◌, inl, inr, refl, sym, ap, ◌∙◌, some,
  List, [], ◌∷◌, ◌++◌, length, length-append, take, drop, keep, length-keep-le, ltb, if◌then◌else◌,
  arith, Bool-cases,
}
use secure_file_storage_syst.Prelude.Int64.{add64_small, lt64_small}
use secure_file_storage_syst.Audit.{Event, MemoryRepository}
use secure_file_storage_syst.Audit.Query.{
  Text, Query, slice, get_elem?, matches_query, matches_below, page_of, list,
}

module _ {A : Type 0} where
  unfoldable pub reverse : List A → List A
  reverse [] = []
  reverse (x ∷ xs) = reverse xs ++ x ∷ []

  reverse-snoc : (xs : List A) (y : A) → reverse (xs ++ y ∷ []) ≡ y ∷ reverse xs
  unfolding reverse
  reverse-snoc [] y = refl
  reverse-snoc (x ∷ xs) y = ap (λ (ys : List A). ys ++ x ∷ []) (reverse-snoc xs y)

  pub length-reverse : (xs : List A) → length (reverse xs) ≡ length xs
  unfolding reverse
  length-reverse [] = refl
  length-reverse (x ∷ xs) = omega (arith, length-append (reverse xs) (x ∷ []), length-reverse xs)

  keep-snoc_hit :
      (p : A → Bool) (xs : List A) (y : A)
      → p y ≡ true
      → keep p (xs ++ y ∷ []) ≡ keep p xs ++ y ∷ []
  unfolding keep
  keep-snoc_hit p [] y hit = ground arith
  keep-snoc_hit p (x ∷ xs) y hit = ground (arith, keep-snoc_hit p xs y hit)

  keep-snoc_miss :
      (p : A → Bool) (xs : List A) (y : A) → p y ≡ false → keep p (xs ++ y ∷ []) ≡ keep p xs
  unfolding keep
  keep-snoc_miss p [] y miss = ground arith
  keep-snoc_miss p (x ∷ xs) y miss = ground (arith, keep-snoc_miss p xs y miss)

  take-suc :
      (xs : List A) (n : ℕ)
      → n < length xs
      → (x : A) × (get_elem? xs n ≡ some x) × (take (suc n) xs ≡ take n xs ++ x ∷ [])
  take-suc [] n h = absurd (omega arith)
  take-suc (x ∷ xs) zero h = (x, refl, refl)
  take-suc (x ∷ xs) (suc n) h =
      let (y, found, taken) = take-suc xs n (omega arith) in
      (y, found, ap (λ (ys : List A). x ∷ ys) taken)

  pub take_whole : (n : ℕ) (xs : List A) → length xs ≤ n → take n xs ≡ xs
  take_whole zero [] h = refl
  take_whole zero (x ∷ xs) h = absurd (omega arith)
  take_whole (suc n) [] h = refl
  take_whole (suc n) (x ∷ xs) h = ap (λ (ys : List A). x ∷ ys) (take_whole n xs (omega arith))

  drop_whole : (n : ℕ) (xs : List A) → length xs ≤ n → drop n xs ≡ []
  drop_whole zero [] h = refl
  drop_whole zero (x ∷ xs) h = absurd (omega arith)
  drop_whole (suc n) [] h = refl
  drop_whole (suc n) (x ∷ xs) h = drop_whole n xs (omega arith)

  length-drop : (n : ℕ) (xs : List A) → length (drop n xs) ≡ length xs - n
  length-drop zero xs = omega arith
  length-drop (suc n) [] = omega arith
  length-drop (suc n) (x ∷ xs) = omega (arith, length-drop n xs)

  -- A first part and the part that follows it.
  pub take-drop : (m n : ℕ) (xs : List A) → take m xs ++ take n (drop m xs) ≡ take (m + n) xs
  take-drop zero n xs = ap (λ (k : ℕ). take k xs) {x = n} {y = 0 + n} (omega arith)
  take-drop (suc m) n [] =
      take_whole n [] (omega arith) ∙ sym (take_whole (suc m + n) [] (omega arith))
  take-drop (suc m) n (x ∷ xs) =
      ap (λ (ys : List A). x ∷ ys) (take-drop m n xs)
      ∙ ap (λ (k : ℕ). take k (x ∷ xs)) {x = suc (m + n)} {y = suc m + n} (omega arith)

  slice_lem :
      (lo n : ℕ) (xs : List A)
      → lo < length xs
      → slice lo (if ltb (length xs) (lo + n) then length xs else lo + n) xs
        ≡ some (take n (drop lo xs))
  unfolding slice
  slice_lem lo n xs inside = elim (Bool-cases (ltb (length xs) (lo + n))) [
    | inl short ↦
        let whole = take_whole (length xs - lo) (drop lo xs) (omega (arith, length-drop lo xs)) in
        let more = take_whole n (drop lo xs) (ground (arith, length-drop lo xs)) in
        ground (arith, whole, more)
    | inr long ↦ let width : (lo + n) - lo ≡ n = omega arith in ground (arith, width)
  ]

-- What a search is for: the events that match, newest first.
unfoldable pub newest_first : Text → Query → List Event → List Event
newest_first t q events = reverse (keep (matches_query t q) events)

module _ (t : Text) (q : Query) where
  below-hit :
      (n : ℕ) (events : List Event) (e : Event)
      → get_elem? events n ≡ some e
      → matches_query t q e ≡ true
      → matches_below t (suc n) q events ≡ e ∷ matches_below t n q events
  unfolding matches_below
  below-hit n events e found hit = ground arith

  below-miss :
      (n : ℕ) (events : List Event) (e : Event)
      → get_elem? events n ≡ some e
      → matches_query t q e ≡ false
      → matches_below t (suc n) q events ≡ matches_below t n q events
  unfolding matches_below
  below-miss n events e found miss = ground arith

  below-take :
      (n : ℕ) (events : List Event)
      → n ≤ length events
      → matches_below t n q events ≡ newest_first t q (take n events)
  unfolding matches_below newest_first reverse keep
  below-take zero events h = refl
  below-take (suc n) events h =
      let matches = matches_query t q in
      let (e, found, taken) = take-suc events n (omega arith) in
      let rest = below-take n events (omega arith) in
      let moved = ap (λ (es : List Event). reverse (keep matches es)) (sym taken) in
      elim (Bool-cases (matches e)) [
        | inl hit ↦
            below-hit n events e found hit
            ∙ ap (λ (es : List Event). e ∷ es) rest
            ∙ sym (reverse-snoc (keep matches (take n events)) e)
            ∙ ap reverse (sym (keep-snoc_hit matches (take n events) e hit))
            ∙ moved
        | inr miss ↦
            below-miss n events e found miss
            ∙ rest
            ∙ ap reverse (sym (keep-snoc_miss matches (take n events) e miss))
            ∙ moved
      ]

  pub below_lem :
      (events : List Event) → matches_below t (length events) q events ≡ newest_first t q events
  below_lem events =
      below-take (length events) events (omega arith)
      ∙ ap (newest_first t q) (take_whole (length events) events (omega arith))

  pub length-newest_first : (events : List Event) → length (newest_first t q events) ≤ length events
  unfolding newest_first
  length-newest_first events = omega (
    arith,
    length-reverse (keep (matches_query t q) events),
    length-keep-le (matches_query t q) events,
  )

  page_of_lem :
      (matches : List Event)
      → length matches < 2 ^ 62
      → q.limit < 2 ^ 62
      → q.offset < 2 ^ 63
      → page_of q matches ≡ some (take q.limit (drop q.offset matches), length matches)
  unfolding page_of
  page_of_lem matches few limit offset =
      let test = lt64_small q.offset (length matches) offset (omega arith) in
      elim (Bool-cases (ltb q.offset (length matches))) [
        | inl inside ↦
            let sum = add64_small q.offset q.limit (ground arith) in
            let longer =
              lt64_small (length matches) (q.offset + q.limit) (omega arith) (ground arith) in
            let cut = slice_lem q.offset q.limit matches (ground arith) in
            rw (test, inside, sum, longer, cut) refl
        | inr outside ↦
            let left = drop_whole q.offset matches (ground arith) in
            let empty =
              take_whole q.limit (drop q.offset matches)
                (omega (arith, ap (length {A = Event}) left)) in
            rw (test, outside, sym (empty ∙ left)) refl
      ]

  -- `List` answers the asked stretch of the matching events, newest first, and how many there are.
  pub list_lem :
      (r : MemoryRepository)
      → length r.events < 2 ^ 62
      → q.limit < 2 ^ 62
      → q.offset < 2 ^ 63
      → list t q r
        ≡ some (
          take q.limit (drop q.offset (newest_first t q r.events)),
          length (newest_first t q r.events),
        )
  unfolding list
  list_lem r few limit offset =
      ap (page_of q) (below_lem r.events)
      ∙ page_of_lem (newest_first t q r.events) (omega (arith, length-newest_first r.events)) limit
          offset
