-- ===== src/Find/History.antt =====
-- Results of searches that arrive late, in native_app.cpp's find in page.
use vant.Prelude.{
  ℕ, ◌+◌, ◌%◌, ◌^◌, ◌≤◌, ◌<◌, ◌≡◌, ◌≢◌, refl, false, List, [], ◌∷◌, Option, none, some, Bytes,
  arith, ◌==◌,
}
use vant.Find.{
  FindState, find_counted, find_evaluated, find_changed, find_next, find_previous, close_find,
  show_find,
}
use vant.Find.Laws.{
  IsCounted, FindEvent, counted, evaluated, changed, next, previous, close_bar, show_bar, handle,
  handle_all, handle-IsCounted,
}

-- How often the generation is raised: where the text changes or the bar closes over a view.
abbrev pub raises : FindEvent → Option ℕ → ℕ
raises (changed text) (some view) = 1
raises close_bar (some view) = 1
raises _ _ = 0

abbrev pub raises_all : List (FindEvent × Option ℕ) → ℕ
raises_all [] = 0
raises_all ((e, active) ∷ es) = raises e active + raises_all es

handle_generation :
    (e : FindEvent) (active : Option ℕ) (s : FindState)
    → s.find_generation < 2 ^ 32
    → (handle e active s).0.find_generation ≡ (s.find_generation + raises e active) % 2 ^ 32
unfolding handle find_counted find_evaluated find_changed find_next find_previous close_find
    show_find
handle_generation (counted n) active s h = ground arith
handle_generation (evaluated view g none) active s h = ground arith
handle_generation (evaluated view g (some n)) active s h = ground arith
handle_generation (changed text) none s h = ground arith
handle_generation (changed text) (some v) s h = ground arith
handle_generation next none s h = ground arith
handle_generation next (some v) s h = ground arith
handle_generation previous none s h = ground arith
handle_generation previous (some v) s h = ground arith
handle_generation close_bar none s h = ground arith
handle_generation close_bar (some v) s h = ground arith
handle_generation show_bar active s h = ground arith

handle_all-generation :
    (es : List (FindEvent × Option ℕ)) (s : FindState)
    → IsCounted s
    → (handle_all es s).find_generation ≡ (s.find_generation + raises_all es) % 2 ^ 32
unfolding handle_all
handle_all-generation [] s h = omega (arith, h.word)
handle_all-generation ((e, active) ∷ es) s h = omega (
  arith,
  handle_generation e active s h.word,
  handle_all-generation es (handle e active s).0 (handle-IsCounted e active s h),
)

-- The result of a search script is ignored, and asks nothing of WebKit, once the text has changed or
-- the bar has been closed over a view after it, whatever else happened, as long as that was fewer than
-- 2^32 times.
pub stale-ignored :
    (es : List (FindEvent × Option ℕ)) (s : FindState) (view : ℕ) (result active : Option ℕ)
    → IsCounted s
    → 1 ≤ raises_all es
    → raises_all es < 2 ^ 32
    → find_evaluated view s.find_generation result active (handle_all es s) ≡ (handle_all es s, [])
unfolding find_evaluated
stale-ignored es s view result active h one few =
    let e = handle_all-generation es s h in
    let other : (s.find_generation == (handle_all es s).find_generation) ≡ false =
      ground (arith, e, differs s.find_generation (raises_all es) h.word one few) in
    rw other refl
  where
    differs : (g k : ℕ) → g < 2 ^ 32 → 1 ≤ k → k < 2 ^ 32 → g ≢ (g + k) % 2 ^ 32
    differs g k h one few e = omega arith

-- A count of matches carries no generation: one that WebKit reports for the text before the last
-- change is taken as the count of the text after it.
find_counted-changed :
    (count view : ℕ) (text : Bytes) (s : FindState)
    → let after = find_counted count (find_changed (some view) text s).0 in
      (after.find_total ≡ count) × (after.entry ≡ text)
unfolding find_counted find_changed
find_counted-changed count view text s = ground arith
