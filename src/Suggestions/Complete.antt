-- ===== src/Suggestions/Complete.antt =====
-- src/native_app.cpp: the pages that the address bar suggests, and those that it leaves out.
use vant.Prelude.{
  ℕ, suc, zero, ◌≤◌, ◌≡◌, ◌⊎◌, refl, ap, sym, ◌∙◌, inl, inr, true, false, List, [], ◌∷◌, ◌++◌, none,
  some, arith, Bytes, codes, bytes_eq, bytes_eq_iff, length, take, drop, All, Bool-cases,
  Option-cases,
}
use vant.Navigation.{lower}
use vant.Strings.{find_text, starts_with, starts_with-append, starts_with_self}
use vant.UserData.{HistoryEntry}
use vant.Suggestions.{
  RankedSuggestion, add_visit, rank_onto, goes_before, insert_ranked, stable_sort, matches,
  matching, suggested,
}
use vant.Suggestions.Laws.{ranked_times, times, suggested-matches}

-- The text stands somewhere in the other.
abbrev pub Contains : Bytes → Bytes → Type 0
Contains needle s = (before : Bytes) × (after : Bytes) × (s ≡ before ++ (needle ++ after))

-- The query stands, in either case, in the title, a blank and the address.
abbrev pub IsMatch : Bytes → HistoryEntry → Type 0
IsMatch query e = Contains (lower query) (lower (e.title ++ codes " " ++ e.uri))

find_text-Contains :
    (needle s : Bytes) (p : Bytes × Bytes) → find_text needle s ≡ some p → Contains needle s
unfolding find_text
find_text-Contains [] [] p e = ([], [], refl)
find_text-Contains (n ∷ needle) [] p e = absurd (unfold bytes_eq in ground (arith, e))
find_text-Contains needle (c ∷ s) p e = elim (Bool-cases (starts_with needle (c ∷ s))) [
  | inl here ↦ ([], drop (length needle) (c ∷ s), starts_with-append needle (c ∷ s) here)
  | inr later ↦ elim (Option-cases (find_text needle s)) [
    | inl miss ↦ absurd (ground (arith, rw (later, miss) at e))
    | inr (q, found) ↦
        let (before, after, split) = find_text-Contains needle s q found in
        (c ∷ before, after, ap (λ t. c ∷ t) split)
  ]
]

find_text-here : (needle s : Bytes) → starts_with needle s ≡ true → find_text needle s ≡ none → ⊥
unfolding find_text starts_with bytes_eq
find_text-here [] [] h e = ground (arith, e)
find_text-here (n ∷ needle) [] h e = ground (arith, h)
find_text-here needle (c ∷ s) h e = ground (arith, rw h at e)

find_text-misses :
    (needle before after : Bytes) → find_text needle (before ++ (needle ++ after)) ≡ none → ⊥
unfolding find_text
find_text-misses needle [] after e =
    find_text-here needle (needle ++ after) (starts_with_self needle after) e
find_text-misses needle (c ∷ before) after e =
    elim (Bool-cases (starts_with needle (c ∷ (before ++ (needle ++ after))))) [
      | inl here ↦ absurd (ground (arith, rw here at e))
      | inr later ↦ elim (Option-cases (find_text needle (before ++ (needle ++ after)))) [
        | inl miss ↦ find_text-misses needle before after miss
        | inr (q, found) ↦ absurd (ground (arith, rw (later, found) at e))
      ]
    ]

matches-IsMatch :
    (query : Bytes) (e : HistoryEntry) → matches (lower query) e ≡ true → IsMatch query e
matches-IsMatch query e h =
    elim (Option-cases (find_text (lower query) (lower (e.title ++ codes " " ++ e.uri)))) [
      | inl miss ↦ absurd (ground (arith, rw miss at h))
      | inr (p, found) ↦ find_text-Contains (lower query) _ p found
    ]

unmatched : (query : Bytes) (e : HistoryEntry) → matches (lower query) e ≡ false → ¬ IsMatch query e
unmatched query e h (before, after, split) =
    elim (Option-cases (find_text (lower query) (lower (e.title ++ codes " " ++ e.uri)))) [
      | inl miss ↦
          find_text-misses (lower query) before after
            (ap (find_text (lower query)) (sym split) ∙ miss)
      | inr (p, found) ↦ absurd (ground (arith, rw found at h))
    ]

All-map :
    (P Q : HistoryEntry → Type 0) (es : List HistoryEntry)
    → ((e : HistoryEntry) → P e → Q e)
    → All P es
    → All Q es
All-map P Q [] f h = tt
All-map P Q (e ∷ es) f h = (f e h.0, All-map P Q es f h.1)

-- The entry is among the ranked ones.
abbrev Has : HistoryEntry → List RankedSuggestion → Type 0
Has e [] = ⊥
Has e (r ∷ rs) = (r.entry ≡ e) ⊎ Has e rs

add_visit-keeps :
    (e h : HistoryEntry) (rs : List RankedSuggestion) → Has e rs → Has e (add_visit h rs)
unfolding add_visit
add_visit-keeps e h [] has = elim has [ ]
add_visit-keeps e h (x ∷ xs) has = elim (Bool-cases (bytes_eq x.entry.uri h.uri)) [
  | inl same ↦ rw same has
  | inr other ↦
      rw other (elim has [ inl here ↦ inl here | inr later ↦ inr (add_visit-keeps e h xs later) ])
]

add_visit-Has :
    (e : HistoryEntry) (rs : List RankedSuggestion)
    → ranked_times e.uri rs ≡ 0
    → Has e (add_visit e rs)
unfolding add_visit ranked_times
add_visit-Has e [] h = inl refl
add_visit-Has e (x ∷ xs) h = elim (Bool-cases (bytes_eq x.entry.uri e.uri)) [
  | inl same ↦ absurd (ground (arith, rw same at h))
  | inr other ↦ rw other (inr (add_visit-Has e xs (ground (arith, rw other at h))))
]

rank-keeps :
    (e : HistoryEntry) (hs : List HistoryEntry) (rs : List RankedSuggestion)
    → Has e rs
    → Has e (rank_onto rs hs)
unfolding rank_onto
rank-keeps e [] rs h = h
rank-keeps e (x ∷ hs) rs h = rank-keeps e hs (add_visit x rs) (add_visit-keeps e x rs h)

insert-here :
    (e : HistoryEntry) (r : RankedSuggestion) (rs : List RankedSuggestion)
    → r.entry ≡ e
    → Has e (insert_ranked r rs)
unfolding insert_ranked
insert-here e r [] h = inl h
insert-here e r (x ∷ xs) h = elim (Bool-cases (goes_before x r)) [
  | inl later ↦ rw later (inr (insert-here e r xs h))
  | inr here ↦ rw here (inl h)
]

insert-keeps :
    (e : HistoryEntry) (r : RankedSuggestion) (rs : List RankedSuggestion)
    → Has e rs
    → Has e (insert_ranked r rs)
unfolding insert_ranked
insert-keeps e r [] h = elim h [ ]
insert-keeps e r (x ∷ xs) h = elim (Bool-cases (goes_before x r)) [
  | inl later ↦
      rw later (elim h [ inl first ↦ inl first | inr rest ↦ inr (insert-keeps e r xs rest) ])
  | inr here ↦ rw here (inr h)
]

sort-Has : (e : HistoryEntry) (rs : List RankedSuggestion) → Has e rs → Has e (stable_sort rs)
unfolding stable_sort
sort-Has e [] h = elim h [ ]
sort-Has e (r ∷ rs) h = elim h [
  | inl first ↦ insert-here e r (stable_sort rs) first
  | inr rest ↦ insert-keeps e r (stable_sort rs) (sort-Has e rs rest)
]

matching-times :
    (e : HistoryEntry) (needle : Bytes) (rs : List RankedSuggestion)
    → Has e rs
    → matches needle e ≡ true
    → 1 ≤ times e.uri (matching needle rs)
unfolding matching times
matching-times e needle [] h m = elim h [ ]
matching-times e needle (r ∷ rs) h m = elim h [
  | inl same ↦
      let shown = ap (λ (x : HistoryEntry). matches needle x) same ∙ m in
      let named =
        ap (λ (x : HistoryEntry). bytes_eq x.uri e.uri) same ∙ (bytes_eq_iff e.uri e.uri).1 refl in
      rw (shown, named) (omega arith)
  | inr rest ↦ elim (Bool-cases (matches needle r.entry)) [
    | inl shown ↦ rw shown (omega (arith, matching-times e needle rs rest m))
    | inr left ↦ rw left (matching-times e needle rs rest m)
  ]
]

-- An address that was not visited before is new in the ranking.
add_visit-new :
    (u : Bytes) (h : HistoryEntry) (rs : List RankedSuggestion)
    → bytes_eq h.uri u ≡ false
    → ranked_times u rs ≡ 0
    → ranked_times u (add_visit h rs) ≡ 0
unfolding add_visit ranked_times
add_visit-new u h [] other none_yet = ground (arith, other)
add_visit-new u h (x ∷ xs) other none_yet = elim (Bool-cases (bytes_eq x.entry.uri u)) [
  | inl same ↦ absurd (ground (arith, rw same at none_yet))
  | inr differs ↦
      let rest : ranked_times u xs ≡ 0 = ground (arith, rw differs at none_yet) in
      elim (Bool-cases (bytes_eq x.entry.uri h.uri)) [
        | inl again ↦ rw (again, differs) (omega (arith, rest))
        | inr one ↦ rw (one, differs) (omega (arith, add_visit-new u h xs other rest))
      ]
]

rank-Has :
    (e : HistoryEntry) (before after : List HistoryEntry) (rs : List RankedSuggestion)
    → times e.uri before ≡ 0
    → ranked_times e.uri rs ≡ 0
    → Has e (rank_onto rs (before ++ e ∷ after))
unfolding rank_onto times
rank-Has e [] after rs h k = rank-keeps e after (add_visit e rs) (add_visit-Has e rs k)
rank-Has e (x ∷ before) after rs h k = elim (Bool-cases (bytes_eq x.uri e.uri)) [
  | inl same ↦ absurd (ground (arith, rw same at h))
  | inr other ↦
      rank-Has e before after (add_visit x rs) (ground (arith, rw other at h))
        (add_visit-new e.uri x rs other k)
]

-- A list that is cut to fewer than it might have is whole.
take-times :
    (u : Bytes) (n : ℕ) (es : List HistoryEntry)
    → (length (take n es) ≡ n) ⊎ (times u (take n es) ≡ times u es)
take-times u zero es = inl refl
take-times u (suc n) [] = inr refl
take-times u (suc n) (e ∷ es) = elim (take-times u n es) [
  | inl full ↦ inl (ap suc full)
  | inr whole ↦ inr (unfold times in ground (arith, whole))
]

shown-times :
    (query : Bytes) (e : HistoryEntry) (before after : List HistoryEntry)
    → times e.uri before ≡ 0
    → matches (lower query) e ≡ true
    → (length (suggested query (before ++ e ∷ after)) ≡ 8)
      ⊎ (1 ≤ times e.uri (suggested query (before ++ e ∷ after)))
unfolding suggested
shown-times query e before after h m =
    let sorted = stable_sort (rank_onto [] (before ++ e ∷ after)) in
    let has = sort-Has e _ (rank-Has e before after [] h (unfold ranked_times in refl)) in
    let listed = matching-times e (lower query) sorted has m in
    elim (take-times e.uri 8 (matching (lower query) sorted)) [
      | inl full ↦ inl full
      | inr whole ↦ inr (omega (arith, whole, listed))
    ]

-- The address bar suggests at most eight pages, no address twice, and each with the query, in either
-- case, in the text of its title, a blank and its address. The newest visit of an address, one that
-- no visit of the same address stands before in the history, is suggested if it has the query there,
-- unless eight others are.
pub suggested_lem :
    (query u : Bytes) (e : HistoryEntry) (before after : List HistoryEntry)
    → times e.uri before ≡ 0
    → let pages = suggested query (before ++ e ∷ after) in
      (length pages ≤ 8)
      × (times u pages ≤ 1)
      × All (IsMatch query) pages
      × ((length pages ≡ 8) ⊎ (times e.uri pages ≡ 1) ⊎ (¬ IsMatch query e))
suggested_lem query u e before after h =
    let entries = before ++ e ∷ after in
    let (few, found, once) = suggested-matches query u entries in
    let (_, _, itself) = suggested-matches query e.uri entries in
    (
      few,
      once,
      All-map _ (IsMatch query) _ (matches-IsMatch query) found,
      elim (Bool-cases (matches (lower query) e)) [
        | inr left ↦ inr (inr (unmatched query e left))
        | inl m ↦ elim (shown-times query e before after h m) [
          | inl full ↦ inl full
          | inr listed ↦ inr (inl (omega (arith, listed, itself)))
        ]
      ],
    )
