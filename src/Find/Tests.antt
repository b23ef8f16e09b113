-- ===== src/Find/Tests.antt =====
-- Find in page at a concrete search.
use vant.Prelude.{ℕ, ◌≡◌, refl, List, [], ◌∷◌, Option, some, codes, arith}
use vant.Strings.{is_empty}
use vant.Decimal.{to_string}
use vant.Find.{fresh_find, count_label, find_changed, find_evaluated, find_next, find_previous}
use vant.Find.Laws.{
  IsCounted, FindEvent, evaluated, changed, next, previous, close_bar, handle, handle_all,
  find-IsCounted, find_previous-next,
}
use vant.Find.History.{stale-ignored}

abbrev typed : List (FindEvent × Option ℕ)
typed =
    (changed (codes "va"), some 4)
    ∷ (evaluated 4 1 (some 3), some 4)
    ∷ (next, some 4)
    ∷ (previous, some 4)
    ∷ (previous, some 4)
    ∷ []

typed_label : (handle_all typed fresh_find).find_count ≡ codes "3 / 3"
unfolding handle_all handle fresh_find find_changed find_evaluated find_next find_previous
    count_label to_string is_empty
typed_label = refl

find-IsCounted_example : IsCounted (handle_all typed fresh_find)
find-IsCounted_example = find-IsCounted typed

find_previous-next_example :
    ((find_previous (some 4) (find_next (some 4) (handle_all typed fresh_find)).0).0
      ≡ handle_all typed fresh_find)
    × ((find_next (some 4) (find_previous (some 4) (handle_all typed fresh_find)).0).0
        ≡ handle_all typed fresh_find)
find_previous-next_example =
    find_previous-next 4 (handle_all typed fresh_find) (find-IsCounted typed)

stale-ignored_example :
    find_evaluated 4 (handle_all typed fresh_find).find_generation (some 9) (some 4) (
      handle_all
        ((changed (codes "van"), some 4) ∷ (close_bar, some 4) ∷ [])
        (handle_all typed fresh_find))
    ≡ (
      handle_all
          ((changed (codes "van"), some 4) ∷ (close_bar, some 4) ∷ [])
          (handle_all typed fresh_find),
      [],
    )
stale-ignored_example =
    stale-ignored ((changed (codes "van"), some 4) ∷ (close_bar, some 4) ∷ [])
      (handle_all typed fresh_find) 4 (some 9) (some 4) (find-IsCounted typed) (omega arith)
      (omega arith)
