-- ===== src/Find/Scripts.antt =====
-- The scripts of native_app.cpp's find in page hold the query as one string literal.
use vant.Prelude.{ℕ, ◌≡◌, refl, false, [], ◌∷◌, ◌++◌, some, Bytes}
use vant.Strings.{is_empty}
use vant.Json.{json_string, read_json_string}
use vant.Json.RoundTrip.{read-json_string}
use vant.Find.{
  FindState, search_finish, evaluate_counted, search_head, search_tail, search_script, find_changed,
  next_generation,
}

-- A search for a text asks WebKit, after it ended the search before, for one script that carries the
-- next generation; behind a part that does not depend on the text stands a string literal that reads
-- as the text, and behind it a part that depends on nothing.
pub find_changed-script :
    (view : ℕ) (text : Bytes) (s : FindState)
    → is_empty text ≡ false
    → (script behind : Bytes) × ((find_changed (some view) text s).1
        ≡ search_finish view
          ∷ evaluate_counted view script (next_generation s.find_generation)
          ∷ [])
      × (script ≡ search_head (next_generation s.find_generation) ++ behind)
      × (read_json_string behind ≡ some (text, search_tail))
unfolding find_changed search_script
find_changed-script view text s h = (
  search_script (next_generation s.find_generation) text,
  json_string text ++ search_tail,
  rw h refl,
  refl,
  read-json_string text search_tail,
)
