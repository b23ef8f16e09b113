-- ===== src/Suggestions/Laws.antt =====
-- src/native_app.cpp: what the address bar suggests.
use vant.Prelude.{
  ℕ, ◌+◌, ◌≤◌, ◌≡◌, refl, inl, inr, max, Bool, true, false, List, [], ◌∷◌, arith, Bytes, bytes_eq,
  bytes_eq_iff, Bool-cases, length, take, All, length-take, suc, zero,
}
use vant.Navigation.{lower}
use vant.UserData.{HistoryEntry}
use vant.Suggestions.{
  RankedSuggestion, add_visit, rank_onto, goes_before, insert_ranked, stable_sort, matches,
  matching, suggested,
}

abbrev counted : Bool → ℕ
counted true = 1
counted false = 0

-- How often an address is among the ranked ones.
unfoldable pub ranked_times : Bytes → List RankedSuggestion → ℕ
ranked_times u [] = 0
ranked_times u (r ∷ rs) = counted (bytes_eq r.entry.uri u) + ranked_times u rs

-- How often an address is listed.
unfoldable pub times : Bytes → List HistoryEntry → ℕ
times u [] = 0
times u (e ∷ es) = counted (bytes_eq e.uri u) + times u es

times-add_visit :
    (u : Bytes) (h : HistoryEntry) (rs : List RankedSuggestion)
    → ranked_times u (add_visit h rs) ≡ max (ranked_times u rs) (counted (bytes_eq h.uri u))
unfolding ranked_times add_visit
times-add_visit u h [] = elim (Bool-cases (bytes_eq h.uri u)) [
  | inl same ↦ rw same (omega arith)
  | inr other ↦ rw other (omega arith)
]
times-add_visit u h (x ∷ xs) = ground (
  arith,
  times-add_visit u h xs,
  bytes_eq_iff x.entry.uri h.uri,
  bytes_eq_iff x.entry.uri u,
  bytes_eq_iff h.uri u,
)

times-rank :
    (u : Bytes) (hs : List HistoryEntry) (rs : List RankedSuggestion)
    → ranked_times u rs ≤ 1
    → ranked_times u (rank_onto rs hs) ≤ 1
unfolding rank_onto
times-rank u [] rs h = h
times-rank u (e ∷ hs) rs h =
    times-rank u hs (add_visit e rs)
      (omega (arith, times-add_visit u e rs, h, counted_le (bytes_eq e.uri u)))
  where
    counted_le : (b : Bool) → counted b ≤ 1
    counted_le true = omega arith
    counted_le false = omega arith

times-insert :
    (u : Bytes) (r : RankedSuggestion) (rs : List RankedSuggestion)
    → ranked_times u (insert_ranked r rs) ≡ counted (bytes_eq r.entry.uri u) + ranked_times u rs
unfolding ranked_times insert_ranked
times-insert u r [] = refl
times-insert u r (x ∷ xs) = elim (Bool-cases (goes_before x r)) [
  | inl later ↦ rw later (omega (arith, times-insert u r xs))
  | inr here ↦ rw here refl
]

times-sort :
    (u : Bytes) (rs : List RankedSuggestion) → ranked_times u (stable_sort rs) ≡ ranked_times u rs
unfolding ranked_times stable_sort
times-sort u [] = refl
times-sort u (r ∷ rs) = omega (arith, times-insert u r (stable_sort rs), times-sort u rs)

times-matching :
    (u needle : Bytes) (rs : List RankedSuggestion)
    → times u (matching needle rs) ≤ ranked_times u rs
unfolding ranked_times times matching
times-matching u needle [] = omega arith
times-matching u needle (r ∷ rs) = elim (Bool-cases (matches needle r.entry)) [
  | inl shown ↦ rw shown (omega (arith, times-matching u needle rs))
  | inr left ↦ rw left (omega (arith, times-matching u needle rs))
]

matching-All :
    (needle : Bytes) (rs : List RankedSuggestion)
    → All (λ (e : HistoryEntry). matches needle e ≡ true) (matching needle rs)
unfolding matching
matching-All needle [] = tt
matching-All needle (r ∷ rs) = elim (Bool-cases (matches needle r.entry)) [
  | inl shown ↦ rw shown (shown, matching-All needle rs)
  | inr left ↦ rw left (matching-All needle rs)
]

times-take : (u : Bytes) (n : ℕ) (es : List HistoryEntry) → times u (take n es) ≤ times u es
unfolding times
times-take u zero es = omega arith
times-take u (suc n) [] = omega arith
times-take u (suc n) (e ∷ es) = omega (arith, times-take u n es)

take-All :
    (P : HistoryEntry → Type 0) (n : ℕ) (es : List HistoryEntry) → All P es → All P (take n es)
take-All P zero es h = tt
take-All P (suc n) [] h = tt
take-All P (suc n) (e ∷ es) h = (h.0, take-All P n es h.1)

-- What is listed is found by the code's own test, at most eight times and each address once.
pub suggested-matches :
    (query u : Bytes) (entries : List HistoryEntry)
    → (length (suggested query entries) ≤ 8)
      × All (λ (e : HistoryEntry). matches (lower query) e ≡ true) (suggested query entries)
      × (times u (suggested query entries) ≤ 1)
unfolding suggested ranked_times
suggested-matches query u entries =
    let ranked = rank_onto [] entries in
    let sorted = stable_sort ranked in
    let shown = matching (lower query) sorted in
    (
      omega (arith, length-take 8 shown),
      take-All _ 8 shown (matching-All (lower query) sorted),
      omega (
        arith,
        times-take u 8 shown,
        times-matching u (lower query) sorted,
        times-sort u ranked,
        times-rank u entries [] (omega arith),
      ),
    )
