-- ===== src/Browser/History.antt =====
-- Histories of calls of the tab model's public operations, browser_model.h.
use vant.Prelude.{ℕ, ◌+◌, ◌^◌, ◌≤◌, ◌<◌, ◌≡◌, Bool, List, [], ◌∷◌, some, arith, Bytes, length}
use vant.Browser.{
  BrowserModel, FocusTarget, create, new_tab, activate, close_tab, reopen_closed, duplicate_tab,
  move_tab, discard_to_limit, set_focus,
}
use vant.Browser.Invariant.{Inv, HasIds, create-Inv}
use vant.Browser.Keeps.{
  new_tab-Inv, activate-Inv, move_tab-Inv, close_tab-Inv, reopen_closed-Inv, duplicate_tab-Inv,
  discard_to_limit-Inv,
}

-- A call of one public operation of `BrowserModel`, with its arguments.
pub data Call : Type 0 where
  opens : Bytes → Bool → Call
  closes activates duplicates discards : ℕ → Call
  moves : ℕ → ℕ → Call
  reopens : Call
  focuses : FocusTarget → Call

unfoldable pub call : BrowserModel → Call → BrowserModel
call m (opens uri activate_tab) = (new_tab m uri activate_tab).0
call m (closes id) = (close_tab m id).0
call m (activates id) = (activate m id).0
call m (duplicates id) = (duplicate_tab m id).0
call m (discards limit) = (discard_to_limit m limit).0
call m (moves id destination) = (move_tab m id destination).0
call m reopens = (reopen_closed m).0
call m (focuses target) = set_focus m target

unfoldable pub run : BrowserModel → List Call → BrowserModel
unfolding call
run m [] = m
run m (c ∷ cs) = run (call m c) cs

call-Inv : (m : BrowserModel) (c : Call) → Inv m → HasIds m → Inv (call m c)
unfolding call set_focus
call-Inv m (opens uri activate_tab) v room = new_tab-Inv m uri activate_tab v room
call-Inv m (closes id) v room = close_tab-Inv m id v
call-Inv m (activates id) v room = activate-Inv m id v
call-Inv m (duplicates id) v room = duplicate_tab-Inv m id v room
call-Inv m (discards limit) v room = discard_to_limit-Inv m limit v
call-Inv m (moves id destination) v room = move_tab-Inv m id destination v
call-Inv m reopens v room = reopen_closed-Inv m v room
call-Inv m (focuses target) v room = grind arith

-- One call takes one id at most.
call-next_id : (m : BrowserModel) (c : Call) → (call m c).next_id ≤ m.next_id + 1
unfolding call new_tab close_tab activate duplicate_tab discard_to_limit move_tab reopen_closed
    set_focus
call-next_id m (opens uri activate_tab) = omega arith
call-next_id m c = ground arith

run-Inv :
    (m : BrowserModel) (cs : List Call) → Inv m → m.next_id + length cs < 2 ^ 64 → Inv (run m cs)
unfolding run
run-Inv m [] v room = v
run-Inv m (c ∷ cs) v room =
    run-Inv (call m c) cs (call-Inv m c v (omega arith)) (omega (arith, call-next_id m c))

create-next_id : (w : Bytes) (l : ℕ) (m : BrowserModel) → create w l ≡ some m → m.next_id ≡ 1
unfolding create
create-next_id [] l m e = cc
create-next_id (c ∷ cs) l m e = ground arith

-- From a new model, any history of fewer than 2^64 - 1 calls leads to a model in which every tab has
-- its own positive id below `next_id`, the active tab is one of the tabs, tabs are live, and closed
-- tabs are marked closed and no more than `closed_limit`.
pub run-create-Inv :
    (workspace : Bytes) (limit : ℕ) (m : BrowserModel) (cs : List Call)
    → create workspace limit ≡ some m
    → length cs + 1 < 2 ^ 64
    → Inv (run m cs)
run-create-Inv workspace limit m cs made room =
    run-Inv m cs (create-Inv workspace limit m made)
      (omega (arith, create-next_id workspace limit m made))
