-- ===== src/TabStrip/Slots.antt =====
-- Where `tab_box_allocate` of native_app.cpp puts the children.
use vant.Prelude.{
  ℕ, suc, ◌+◌, ◌-◌, ◌*◌, ◌≤◌, ◌≡◌, refl, subst, inl, inr, max, List, [], ◌∷◌, Option, none, some,
  arith, if◌then◌else◌, Bool-cases,
}
use native.Mathlib.Nat.{mul-le-mul_right}
use vant.TabStrip.{
  Child, placeholder, tab, Slot, is_visible, place, allocate, placeholder_width, tab_count,
  visible_count, first_visible, tab_width, active_index,
}
use vant.TabStrip.Window.{tab_width_fits}

-- The slots stand side by side from `x` to `end`: each starts where the one before it stopped.
abbrev pub Tiles : ℕ → ℕ → List (Option Slot) → Type 0
Tiles x end [] = x ≡ end
Tiles x end (none ∷ slots) = Tiles x end slots
Tiles x end (some s ∷ slots) = (s.left ≡ x) × Tiles (x + s.width) end slots

abbrev pub placeholders : List Child → ℕ
placeholders [] = 0
placeholders (placeholder w ∷ cs) = suc (placeholders cs)
placeholders (tab a ∷ cs) = placeholders cs

-- How many tabs from the `i`-th on are visible.
abbrev seen : ℕ → ℕ → List Child → ℕ → ℕ
seen first visible [] i = 0
seen first visible (placeholder w ∷ cs) i = seen first visible cs i
seen first visible (tab a ∷ cs) i =
    if is_visible first visible i
    then suc (seen first visible cs (i + 1))
    else seen first visible cs (i + 1)

seen-le :
    (first visible : ℕ) (cs : List Child) (i : ℕ)
    → seen first visible cs i ≤ (first + visible) - max first i
seen-le first visible [] i = omega arith
seen-le first visible (placeholder w ∷ cs) i = seen-le first visible cs i
seen-le first visible (tab a ∷ cs) i = ground (arith, seen-le first visible cs (i + 1))

place-Tiles :
    (reserved width first visible : ℕ) (cs : List Child) (i x : ℕ)
    → Tiles x
        (x + placeholders cs * reserved + seen first visible cs i * width)
        (place reserved width first visible cs i x)
unfolding place
place-Tiles reserved width first visible [] i x = omega arith
place-Tiles reserved width first visible (placeholder w ∷ cs) i x =
    let step = place-Tiles reserved width first visible cs i (x + reserved) in
    let same : x + reserved + placeholders cs * reserved + seen first visible cs i * width
        ≡ x + suc (placeholders cs) * reserved + seen first visible cs i * width =
      omega arith in
    (
      refl,
      subst
          (λ end. Tiles (x + reserved) end (place reserved width first visible cs i (x + reserved)))
          same step,
    )
place-Tiles reserved width first visible (tab a ∷ cs) i x =
    elim (Bool-cases (is_visible first visible i)) [
      | inl shown ↦ rw shown (
        refl,
        subst
            (λ end.
              Tiles (x + width) end (place reserved width first visible cs (i + 1) (x + width)))
            (omega arith) (place-Tiles reserved width first visible cs (i + 1) (x + width)),
      )
      | inr hidden ↦ rw hidden (place-Tiles reserved width first visible cs (i + 1) x)
    ]

placeholder_width-none :
    (cs : List Child) (found : ℕ) → placeholders cs ≡ 0 → placeholder_width cs found ≡ found
unfolding placeholder_width
placeholder_width-none [] found h = refl
placeholder_width-none (placeholder w ∷ cs) found h = absurd (omega arith)
placeholder_width-none (tab a ∷ cs) found h = placeholder_width-none cs found h

reserved_once :
    (cs : List Child)
    → placeholders cs ≤ 1
    → placeholders cs * placeholder_width cs 0 ≤ placeholder_width cs 0
reserved_once cs one = omega (arith, mul-le-mul_right (placeholder_width cs 0) one)

seen-visible : (first visible : ℕ) (cs : List Child) → seen first visible cs 0 ≤ visible
seen-visible first visible cs = omega (arith, seen-le first visible cs 0)

-- In a strip with room for one tab beside the drop placeholder, of which there is one at most, the
-- visible children stand side by side from the left edge and end within the strip's width: none
-- overlaps another, and none is drawn over the window controls.
pub allocate-Tiles :
    (children : List Child) (width height : ℕ) (slots : List (Option Slot))
    → allocate children width height ≡ some slots
    → placeholders children ≤ 1
    → placeholder_width children 0 + 44 ≤ width
    → (end : ℕ) × Tiles 0 end slots × (end ≤ width)
unfolding allocate
allocate-Tiles children width height slots e one room =
    let reserved = placeholder_width children 0 in
    let available = width - reserved in
    let count = tab_count children in
    let visible = visible_count available count in
    let first = first_visible available count (active_index children 0 0) in
    let w = tab_width available visible in
    let same : place reserved w first visible children 0 0 ≡ slots = ground arith in
    let fits = tab_width_fits available count (omega arith) in
    let end = 0 + placeholders children * reserved + seen first visible children 0 * w in
    (
      end,
      subst (λ s. Tiles 0 end s) same (place-Tiles reserved w first visible children 0 0),
      omega (
        arith,
        fits,
        mul-le-mul_right w (seen-visible first visible children),
        reserved_once children one,
      ),
    )
