-- ===== src/Suggestions.antt =====
-- src/native_app.cpp: the addresses that the address bar suggests, `address_changed`, and the key that
-- moves among them. How they are drawn is left out.
pub mod Complete
pub mod Laws
pub mod Tests
use vant.Prelude.{
  ℕ, ◌+◌, ◌-◌, min, Bool, true, false, not, ◌&&◌, ◌||◌, List, [], ◌∷◌, ◌++◌, Option, none, some,
  ltb, ◌==◌, if◌then◌else◌, Bytes, codes, bytes_eq, take,
}
use vant.Navigation.{lower}
use vant.Strings.{is_empty, find_text}
use vant.UserData.{HistoryEntry, UserDataStore, history}

pub record RankedSuggestion : Type 0 where
  pub entry : HistoryEntry
  pub visits : ℕ

-- One more visit of an address, which is put last if it is new.
unfoldable pub add_visit : HistoryEntry → List RankedSuggestion → List RankedSuggestion
add_visit h [] = record { entry = h; visits = 1 } ∷ []
add_visit h (x ∷ xs) =
    let later = add_visit h xs in
    if bytes_eq x.entry.uri h.uri then record x { visits = x.visits + 1 } ∷ xs else x ∷ later

unfoldable pub rank_onto : List RankedSuggestion → List HistoryEntry → List RankedSuggestion
unfolding add_visit
rank_onto ranked [] = ranked
rank_onto ranked (h ∷ hs) = rank_onto (add_visit h ranked) hs

-- The order of `std::stable_sort`.
abbrev pub goes_before : RankedSuggestion → RankedSuggestion → Bool
goes_before left right =
    if not (left.visits == right.visits)
    then ltb right.visits left.visits
    else ltb right.entry.visited_at left.entry.visited_at

unfoldable pub insert_ranked : RankedSuggestion → List RankedSuggestion → List RankedSuggestion
insert_ranked r [] = r ∷ []
insert_ranked r (x ∷ xs) =
    let later = insert_ranked r xs in if goes_before x r then x ∷ later else r ∷ x ∷ xs

unfoldable pub stable_sort : List RankedSuggestion → List RankedSuggestion
unfolding insert_ranked
stable_sort [] = []
stable_sort (r ∷ rs) = insert_ranked r (stable_sort rs)

abbrev is_found : Option (Bytes × Bytes) → Bool
is_found none = false
is_found (some p) = true

abbrev pub matches : Bytes → HistoryEntry → Bool
matches needle e = is_found (find_text needle (lower (e.title ++ codes " " ++ e.uri)))

unfoldable pub matching : Bytes → List RankedSuggestion → List HistoryEntry
matching needle [] = []
matching needle (r ∷ rs) =
    let rest = matching needle rs in if matches needle r.entry then r.entry ∷ rest else rest

unfoldable pub suggested : Bytes → List HistoryEntry → List HistoryEntry
unfolding rank_onto stable_sort matching
suggested query entries = take 8 (matching (lower query) (stable_sort (rank_onto [] entries)))

-- What `address_changed` shows; where there is nothing, the suggestions are hidden. `forced` asks for
-- them with an empty query too.
unfoldable pub address_changed : Bool → Bool → Bool → Bytes → UserDataStore → List HistoryEntry
unfolding suggested
address_changed dismissed focused forced query d =
    if dismissed || not focused || (is_empty query && not forced)
    then []
    else suggested query (history 500 d)

-- `active_suggestion` plus one, 0 for none, after the down key or, else, the up key.
unfoldable pub moved_suggestion : Bool → ℕ → ℕ → ℕ
moved_suggestion down count active = if down then min (active + 1) count else active - 1
