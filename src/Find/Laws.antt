-- ===== src/Find/Laws.antt =====
-- The handlers of find in page keep the count in range and shown.
use vant.Prelude.{
  ℕ, ◌+◌, ◌-◌, ◌⊎◌, ◌%◌, ◌^◌, ◌≤◌, ◌<◌, ◌≡◌, ◌≢◌, refl, List, [], ◌∷◌, Option, none, some, arith,
  ◌==◌, leb, if◌then◌else◌, Bytes, Bool-cases, inl, inr,
}
use native.Mathlib.Nat.{mod-eq_of_lt}
use vant.Find.{
  FindState, FindCall, fresh_find, count_label, find_counted, find_evaluated, find_changed,
  find_next, find_previous, close_find, show_find,
}

-- The current match is one of the matches, counted from 1, or 0 without matches; the label shows it;
-- and the generation is an `unsigned`.
pub record IsCounted (s : FindState) : Type 0 where
  pub in_range : s.find_current ≤ s.find_total
  pub positive : s.find_total ≢ 0 → 1 ≤ s.find_current
  pub shown : s.find_count ≡ count_label s.find_current s.find_total
  pub word : s.find_generation < 2 ^ 32

-- What a user or WebKit makes happen in one window; `select_view` is another view becoming active.
pub data FindEvent : Type 0 where
  counted : ℕ → FindEvent
  evaluated : ℕ → ℕ → Option ℕ → FindEvent
  changed : Bytes → FindEvent
  next previous close_bar show_bar : FindEvent

unfoldable pub handle : FindEvent → Option ℕ → FindState → FindState × List FindCall
handle (counted n) active s = (find_counted n s, [])
handle (evaluated view generation result) active s = find_evaluated view generation result active s
handle (changed text) active s = find_changed active text s
handle next active s = find_next active s
handle previous active s = find_previous active s
handle close_bar active s = close_find active s
handle show_bar active s = show_find s

-- The handlers one after another, each with the view that is active then.
unfoldable pub handle_all : List (FindEvent × Option ℕ) → FindState → FindState
handle_all [] s = s
handle_all ((e, active) ∷ es) s = handle_all es (handle e active s).0

find_counted-IsCounted : (n : ℕ) (s : FindState) → IsCounted s → IsCounted (find_counted n s)
unfolding find_counted
find_counted-IsCounted n s h = ground arith

evaluated-IsCounted :
    (view generation : ℕ) (result active : Option ℕ) (s : FindState)
    → IsCounted s
    → IsCounted (find_evaluated view generation result active s).0
unfolding find_evaluated
evaluated-IsCounted view generation none active s h = ground arith
evaluated-IsCounted view generation (some count) active s h = ground arith

changed-IsCounted :
    (active : Option ℕ) (text : Bytes) (s : FindState)
    → IsCounted s
    → IsCounted (find_changed active text s).0
unfolding find_changed
changed-IsCounted none text s h = ground arith
changed-IsCounted (some view) text s h = ground arith

next-IsCounted :
    (active : Option ℕ) (s : FindState) → IsCounted s → IsCounted (find_next active s).0
unfolding find_next
next-IsCounted none s h = h
next-IsCounted (some view) s h = elim (Bool-cases (s.find_total == 0)) [
  | inl zero_matches ↦ rw zero_matches h
  | inr some_matches ↦
      rw some_matches (record {
        in_range = grind arith;
        positive = λ p. omega arith;
        shown = refl;
        word = h.word;
      })
]

previous-IsCounted :
    (active : Option ℕ) (s : FindState) → IsCounted s → IsCounted (find_previous active s).0
unfolding find_previous
previous-IsCounted none s h = h
previous-IsCounted (some view) s h = ground arith

close-IsCounted :
    (active : Option ℕ) (s : FindState) → IsCounted s → IsCounted (close_find active s).0
unfolding close_find
close-IsCounted none s h = ground arith
close-IsCounted (some view) s h = ground arith

pub handle-IsCounted :
    (e : FindEvent) (active : Option ℕ) (s : FindState)
    → IsCounted s
    → IsCounted (handle e active s).0
unfolding handle
handle-IsCounted (counted n) active s h = find_counted-IsCounted n s h
handle-IsCounted (evaluated view g result) active s h = evaluated-IsCounted view g result active s h
handle-IsCounted (changed text) active s h = changed-IsCounted active text s h
handle-IsCounted next active s h = next-IsCounted active s h
handle-IsCounted previous active s h = previous-IsCounted active s h
handle-IsCounted close_bar active s h = close-IsCounted active s h
handle-IsCounted show_bar active s h = unfold show_find in ground arith

pub handle_all-IsCounted :
    (es : List (FindEvent × Option ℕ)) (s : FindState) → IsCounted s → IsCounted (handle_all es s)
unfolding handle_all
handle_all-IsCounted [] s h = h
handle_all-IsCounted ((e, active) ∷ es) s h =
    handle_all-IsCounted es (handle e active s).0 (handle-IsCounted e active s h)

-- From a fresh window, whatever is typed, stepped through, closed and answered by WebKit, in any
-- order and with any view active, the current match is one of the matches, or 0 without matches,
-- and the label shows the two numbers.
pub find-IsCounted : (es : List (FindEvent × Option ℕ)) → IsCounted (handle_all es fresh_find)
unfolding fresh_find
find-IsCounted es = handle_all-IsCounted es fresh_find (record {
  in_range = omega arith;
  positive = λ p. absurd (p refl);
  shown = unfold count_label in refl;
  word = omega arith;
})

mod_cases : (c t : ℕ) → 1 ≤ c → c ≤ t → ((c ≡ t) × (c % t ≡ 0)) ⊎ ((c < t) × (c % t ≡ c))
mod_cases c t h k = elim (Bool-cases (c == t)) [
  | inl last ↦ let same : c ≡ t = ground arith in inl (same, rw same (grind arith))
  | inr inner ↦ inr (ground arith, mod-eq_of_lt (ground arith))
]

back_forth : (c t : ℕ) → 1 ≤ c → c ≤ t → (if leb (c % t + 1) 1 then t else c % t + 1 - 1) ≡ c
back_forth c t h k = ground (arith, mod_cases c t h k)

forth_back : (c t : ℕ) → 1 ≤ c → c ≤ t → (if leb c 1 then t else c - 1) % t + 1 ≡ c
forth_back c t h k = elim (Bool-cases (leb c 1)) [
  | inl first ↦ rw first (ground (arith, mod_cases t t))
  | inr later ↦ rw later (ground (arith, mod_cases (c - 1) t))
]

-- Stepping forward and back, or back and forward, returns to the same match and label.
pub find_previous-next :
    (view : ℕ) (s : FindState)
    → IsCounted s
    → ((find_previous (some view) (find_next (some view) s).0).0 ≡ s)
      × ((find_next (some view) (find_previous (some view) s).0).0 ≡ s)
unfolding find_next find_previous
find_previous-next view s h = elim (Bool-cases (s.find_total == 0)) [
  | inl zero_matches ↦ rw (zero_matches, zero_matches) (refl, refl)
  | inr some_matches ↦
      rw (some_matches, some_matches)
        (
          ground (arith, back_forth s.find_current s.find_total),
          ground (arith, forth_back s.find_current s.find_total),
        )
]
