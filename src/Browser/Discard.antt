-- ===== src/Browser/Discard.antt =====
-- What `discard_to_limit` of browser_model.cpp does to the tabs.
use vant.Prelude.{
  ℕ, ◌+◌, ◌-◌, ◌≤◌, ◌≡◌, refl, ◌⊎◌, inl, inr, true, false, List, [], ◌∷◌, Option, arith, All,
}
use vant.Browser.{Tab, BrowserModel, resident, can_discard, discard_loop, discard_to_limit}

-- One tab before and after: it is left as it was, or it could be discarded and now is.
abbrev pub Discards : Option ℕ → Tab → Tab → Type 0
Discards active t u =
    (u ≡ t) ⊎ ((can_discard active t ≡ true) × (u ≡ record t { discarded = true }))

abbrev pub Pointwise : (Tab → Tab → Type 0) → List Tab → List Tab → Type 0
Pointwise R [] [] = Unit
Pointwise R (t ∷ ts) (u ∷ us) = R t u × Pointwise R ts us
Pointwise R _ _ = ⊥

Pointwise-refl : (active : Option ℕ) (ts : List Tab) → Pointwise (Discards active) ts ts
Pointwise-refl active [] = tt
Pointwise-refl active (t ∷ ts) = (inl refl, Pointwise-refl active ts)

pub discard_loop-Pointwise :
    (active : Option ℕ) (limit : ℕ) (ts : List Tab) (r d : ℕ)
    → Pointwise (Discards active) ts (discard_loop active limit ts r d).0
unfolding discard_loop
discard_loop-Pointwise active limit [] r d = tt
discard_loop-Pointwise active limit (t ∷ ts) r d = ground (
  arith,
  Pointwise-refl active ts,
  discard_loop-Pointwise active limit ts (r - 1) (d + 1),
  discard_loop-Pointwise active limit ts r d,
)

discard_loop-resident :
    (active : Option ℕ) (limit : ℕ) (ts : List Tab) (r d : ℕ)
    → resident (discard_loop active limit ts r d).0 + (discard_loop active limit ts r d).1
      ≡ resident ts + d
unfolding discard_loop
discard_loop-resident active limit [] r d = refl
discard_loop-resident active limit (t ∷ ts) r d = ground (
  arith,
  discard_loop-resident active limit ts (r - 1) (d + 1),
  discard_loop-resident active limit ts r d,
)

discard_loop_enough :
    (active : Option ℕ) (limit : ℕ) (ts : List Tab) (r d : ℕ)
    → (r + d ≤ limit + (discard_loop active limit ts r d).1)
      ⊎ All (λ t. can_discard active t ≡ false) (discard_loop active limit ts r d).0
unfolding discard_loop
discard_loop_enough active limit [] r d = inr tt
discard_loop_enough active limit (t ∷ ts) r d = ground (
  arith,
  discard_loop_enough active limit ts (r - 1) (d + 1),
  discard_loop_enough active limit ts r d,
)

discard_loop_least :
    (active : Option ℕ) (limit : ℕ) (ts : List Tab) (r d : ℕ)
    → ((discard_loop active limit ts r d).1 ≡ d)
      ⊎ (limit + (discard_loop active limit ts r d).1 ≤ r + d)
unfolding discard_loop
discard_loop_least active limit [] r d = inl refl
discard_loop_least active limit (t ∷ ts) r d = ground (
  arith,
  discard_loop_least active limit ts (r - 1) (d + 1),
  discard_loop_least active limit ts r d,
)

-- `discard_to_limit` changes nothing of a tab but to discard one that is neither active, nor
-- loading, nor discarded; it returns how many resident tabs went; afterwards the limit holds, or no
-- tab is left that could be discarded; and it never goes below the limit.
pub discard_to_limit_lem :
    (m : BrowserModel) (limit : ℕ)
    → let out = discard_to_limit m limit in
      Pointwise (Discards m.active) m.tabs out.0.tabs
      × (resident out.0.tabs + out.1 ≡ resident m.tabs)
      × ((resident out.0.tabs ≤ limit) ⊎ All (λ t. can_discard m.active t ≡ false) out.0.tabs)
      × ((out.1 ≡ 0) ⊎ (limit ≤ resident out.0.tabs))
unfolding discard_to_limit
discard_to_limit_lem m limit =
    let r = resident m.tabs in
    let kept = discard_loop-resident m.active limit m.tabs r 0 in
    let enough = discard_loop_enough m.active limit m.tabs r 0 in
    let least = discard_loop_least m.active limit m.tabs r 0 in
    (discard_loop-Pointwise m.active limit m.tabs r 0, omega arith, ground arith, ground arith)
