-- ===== src/Suggestions/Tests.antt =====
-- Suggestions of the address bar, src/native_app.cpp, at a concrete history.
use vant.Prelude.{ℕ, ◌≤◌, ◌≡◌, ◌⊎◌, refl, List, [], ◌∷◌, Bytes, codes, length, All, bytes_eq}
use vant.Navigation.{lower}
use vant.Strings.{find_text, starts_with, to_lower}
use vant.UserData.{HistoryEntry}
use vant.Suggestions.{add_visit, rank_onto, insert_ranked, stable_sort, matching, suggested}
use vant.Suggestions.Complete.{IsMatch, suggested_lem}
use vant.Suggestions.Laws.{times}

abbrev visit : ℕ → Bytes → Bytes → HistoryEntry
visit id uri title = record { id = id; uri = uri; title = title; visited_at = id }

abbrev visits : List HistoryEntry
visits =
    visit 3 (codes "https://a.org/") (codes "News")
    ∷ visit 2 (codes "https://b.org/") (codes "Newest")
    ∷ visit 1 (codes "https://b.org/") (codes "Newest")
    ∷ []

-- The visit of the first address, with one other in front of it.
suggested_lem_example :
    let pages = suggested (codes "NEW") visits in
    (length pages ≤ 8)
    × (times (codes "https://a.org/") pages ≤ 1)
    × All (IsMatch (codes "NEW")) pages
    × ((length pages ≡ 8)
        ⊎ (times (codes "https://b.org/") pages ≡ 1)
        ⊎ (¬ IsMatch (codes "NEW") (visit 2 (codes "https://b.org/") (codes "Newest"))))
suggested_lem_example =
    suggested_lem (codes "NEW") (codes "https://a.org/")
      (visit 2 (codes "https://b.org/") (codes "Newest"))
      (visit 3 (codes "https://a.org/") (codes "News") ∷ [])
      (visit 1 (codes "https://b.org/") (codes "Newest") ∷ []) (unfold times bytes_eq in refl)

-- The page that was visited twice comes first.
ranked_first :
    suggested (codes "NEW") visits
    ≡ visit 2 (codes "https://b.org/") (codes "Newest")
      ∷ visit 3 (codes "https://a.org/") (codes "News")
      ∷ []
unfolding suggested rank_onto add_visit stable_sort insert_ranked matching lower to_lower find_text
    starts_with bytes_eq
ranked_first = refl
