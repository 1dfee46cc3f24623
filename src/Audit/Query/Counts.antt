-- ===== src/Audit/Query/Counts.antt =====
-- The counts of a search: internal/audit/memory_repository.go, `Summary`.
use secure_file_storage_syst.Prelude.{
  ℕ, String, ◌+◌, ◌≤◌, true, false, ◌≡◌, refl, sym, ap, subst, ◌∙◌, List, [], ◌∷◌, length, keep,
  arith, string_eq, Bool-cases, inl, inr, if◌then◌else◌,
}
use secure_file_storage_syst.Prelude.Map.{insert}
use secure_file_storage_syst.Audit.{Event, MemoryRepository}
use secure_file_storage_syst.Audit.Query.Pages.{newest_first, length-reverse}
use secure_file_storage_syst.Audit.Query.{
  Text, Query, Summary, Actors, Tally, tallied, high_risk, matches_query, count, count_all,
  count_outcome, summary,
}

length-insert-le : (k : String) (m : Actors) → length (insert k tt m) ≤ length m + 1
unfolding insert
length-insert-le k [] = omega arith
length-insert-le k ((j, v) ∷ m) = ground (arith, length-insert-le k m)

-- What the counts of a search keep to.
pub record IsConsistent (s : Summary) (actors : ℕ) : Type 0 where
  pub outcomes : s.successful + s.denied + s.failed ≤ s.matching
  pub recent : s.last_24_hours ≤ s.matching
  pub risky : s.high_risk ≤ s.matching
  pub bad_outcomes : s.denied + s.failed ≤ s.high_risk
  pub people : actors ≤ s.matching

outcome-keeps :
    (e : Event) (s : Summary)
    → ((count_outcome e s).matching ≡ s.matching)
      × ((count_outcome e s).last_24_hours ≡ s.last_24_hours)
      × ((count_outcome e s).high_risk ≡ s.high_risk)
      × ((count_outcome e s).total ≡ s.total)
outcome-keeps e s = (ground arith, ground arith, ground arith, ground arith)

outcome-adds :
    (e : Event) (s : Summary)
    → (count_outcome e s).successful + (count_outcome e s).denied + (count_outcome e s).failed
      ≤ s.successful + s.denied + s.failed + 1
outcome-adds e s = ground arith

outcome-bad :
    (e : Event) (s : Summary)
    → (count_outcome e s).denied + (count_outcome e s).failed
      ≤ s.denied + s.failed + (if high_risk e then 1 else 0)
unfolding high_risk
outcome-bad e s = ground arith

tallied-IsConsistent :
    (now : ℕ) (e : Event) (s : Summary) (actors : Actors)
    → IsConsistent s (length actors)
    → IsConsistent (tallied now e (s, actors)).0 (length (tallied now e (s, actors)).1)
unfolding tallied
tallied-IsConsistent now e s actors h =
    let counted : Summary = record s { matching = s.matching + 1 } in
    let keeps = outcome-keeps e counted in
    let adds = outcome-adds e counted in
    let bad = outcome-bad e counted in
    record {
      outcomes = ground (arith, keeps, adds, h.outcomes);
      recent = ground (arith, keeps, h.recent);
      risky = ground (arith, keeps, h.risky);
      bad_outcomes = ground (arith, keeps, bad, h.bad_outcomes);
      people = ground (arith, keeps, h.people, length-insert-le e.actor_id actors);
    }

abbrev Consistent : Tally → Type 0
Consistent tally = IsConsistent tally.0 (length tally.1)

module _ (t : Text) (q : Query) (now : ℕ) where
  count_all-hit :
      (e : Event) (es : List Event) (tally : Tally)
      → matches_query t q e ≡ true
      → count_all t q now es (tallied now e tally) ≡ count_all t q now (e ∷ es) tally
  unfolding count_all count
  count_all-hit e es tally hit = rw (hit, count_all, count) refl

  count_all-miss :
      (e : Event) (es : List Event) (tally : Tally)
      → matches_query t q e ≡ false
      → count_all t q now es tally ≡ count_all t q now (e ∷ es) tally
  unfolding count_all count
  count_all-miss e es tally miss = rw (miss, count_all, count) refl

  count_all-IsConsistent :
      (es : List Event) (tally : Tally) → Consistent tally → Consistent (count_all t q now es tally)
  unfolding count_all
  count_all-IsConsistent [] tally h = h
  count_all-IsConsistent (e ∷ es) tally h = elim (Bool-cases (matches_query t q e)) [
    | inl hit ↦
        let next = tallied-IsConsistent now e tally.0 tally.1 h in
        subst Consistent (count_all-hit e es tally hit)
          (count_all-IsConsistent es (tallied now e tally) next)
    | inr miss ↦
        subst Consistent (count_all-miss e es tally miss) (count_all-IsConsistent es tally h)
  ]

  tallied-matching :
      (e : Event) (tally : Tally) → (tallied now e tally).0.matching ≡ tally.0.matching + 1
  unfolding tallied
  tallied-matching e (s, actors) =
      ground (arith, (outcome-keeps e (record s { matching = s.matching + 1 })).0)

  count_all-matching :
      (es : List Event) (tally : Tally)
      → (count_all t q now es tally).0.matching
        ≡ tally.0.matching + length (keep (matches_query t q) es)
  unfolding count_all keep
  count_all-matching [] tally = omega arith
  count_all-matching (e ∷ es) tally = elim (Bool-cases (matches_query t q e)) [
    | inl hit ↦
        let counted = ap (λ (a : Tally). a.0.matching) (count_all-hit e es tally hit) in
        let rest = count_all-matching es (tallied now e tally) in
        let one = tallied-matching e tally in ground (arith, counted, rest, one)
    | inr miss ↦
        let counted = ap (λ (a : Tally). a.0.matching) (count_all-miss e es tally miss) in
        let rest = count_all-matching es tally in ground (arith, counted, rest)
  ]

  tallied-total : (e : Event) (tally : Tally) → (tallied now e tally).0.total ≡ tally.0.total
  unfolding tallied
  tallied-total e (s, actors) =
      ground (arith, (outcome-keeps e (record s { matching = s.matching + 1 })).3)

  count_all-total :
      (es : List Event) (tally : Tally) → (count_all t q now es tally).0.total ≡ tally.0.total
  unfolding count_all
  count_all-total [] tally = refl
  count_all-total (e ∷ es) tally = elim (Bool-cases (matches_query t q e)) [
    | inl hit ↦
        sym (ap (λ (a : Tally). a.0.total) (count_all-hit e es tally hit))
        ∙ count_all-total es (tallied now e tally)
        ∙ tallied-total e tally
    | inr miss ↦
        sym (ap (λ (a : Tally). a.0.total) (count_all-miss e es tally miss))
        ∙ count_all-total es tally
  ]

  -- The counts agree with one another, and with the events that a search answers.
  pub summary_lem :
      (r : MemoryRepository)
      → IsConsistent (summary t q now r) (summary t q now r).distinct_actors
        × ((summary t q now r).matching ≡ length (newest_first t q r.events))
        × ((summary t q now r).total ≡ length r.events)
  unfolding summary newest_first
  summary_lem r =
      let empty : Summary = record {
        total = length r.events;
        matching = 0;
        successful = 0;
        denied = 0;
        failed = 0;
        last_24_hours = 0;
        distinct_actors = 0;
        high_risk = 0;
      } in
      let start : Consistent (empty, []) = record {
        outcomes = omega arith;
        recent = omega arith;
        risky = omega arith;
        bad_outcomes = omega arith;
        people = omega arith;
      } in
      let h = count_all-IsConsistent r.events (empty, []) start in
      (
        record {
          outcomes = h.outcomes;
          recent = h.recent;
          risky = h.risky;
          bad_outcomes = h.bad_outcomes;
          people = h.people;
        },
        omega (
          arith,
          count_all-matching r.events (empty, []),
          length-reverse (keep (matches_query t q) r.events),
        ),
        count_all-total r.events (empty, []),
      )
