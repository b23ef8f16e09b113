-- ===== src/Browser/Tests.antt =====
-- Runs of the tab model, and its theorems at a concrete model.
use vant.Prelude.{
  ℕ, ◌≡◌, refl, ◌⊎◌, inl, inr, Bool, true, false, List, [], ◌∷◌, ◌++◌, Option, some, arith, Bytes,
  codes, get_elem?, take, drop, All, ◌^◌, ◌+◌, ◌≤◌,
}
use vant.Browser.{
  Tab, live, page, BrowserModel, Position, create, new_tab, find_if, close_tab, reopen_closed,
}
use vant.Browser.History.{Call, opens, closes, reopens, run, run-create-Inv}
use vant.Browser.Invariant.{Inv}
use vant.Browser.Reopen.{reopen-close_tab}
use vant.Browser.Shortcuts.{Command, command_for_shortcut}
use vant.Prelude.{bytes_eq}

abbrev fresh_model : BrowserModel
fresh_model = record {
  workspace = codes "w";
  closed_limit = 2;
  next_id = 1;
  tabs = [];
  closed_tabs = [];
  active = vant.Prelude.none;
  focus = page;
}

abbrev session : List Call
session =
    opens (codes "a") true
    ∷ opens (codes "b") true
    ∷ opens (codes "c") false
    ∷ closes 2
    ∷ reopens
    ∷ []

create-fresh : create (codes "w") 2 ≡ some fresh_model
unfolding create
create-fresh = refl

-- After the session the tabs are 1, 3 and the reopened one, 4, which is active.
run-session : (run fresh_model session).active ≡ some 4
unfolding run new_tab close_tab find_if reopen_closed
run-session = refl

run-create-Inv_example : Inv (run fresh_model session)
run-create-Inv_example = run-create-Inv (codes "w") 2 fresh_model session create-fresh (omega arith)

abbrev tab_at : ℕ → Tab
tab_at i = record {
  id = i;
  uri = codes "u";
  title = codes "t";
  loading = false;
  discarded = false;
  private_mode = false;
  audible = false;
  lifecycle = live;
}

abbrev three : BrowserModel
three = record fresh_model {
  next_id = 4;
  tabs = tab_at 1 ∷ tab_at 2 ∷ tab_at 3 ∷ [];
  active = some 1;
}

abbrev first_place : Position
first_place = record { before = []; tab = tab_at 1; after = tab_at 2 ∷ tab_at 3 ∷ [] }

abbrev middle : Position
middle = record { before = tab_at 1 ∷ []; tab = tab_at 2; after = tab_at 3 ∷ [] }

reopen-close_tab_example :
    let out = reopen_closed (close_tab three 2).0 in
    (out.1 ≡ some 4) × (out.0.active ≡ some 4) × (out.0.tabs ≡ tab_at 1 ∷ tab_at 3 ∷ tab_at 4 ∷ [])
unfolding find_if
reopen-close_tab_example = reopen-close_tab three 2 middle refl (omega arith)

shortcut-reopen : command_for_shortcut (codes "Ctrl+Shift+T") ≡ some Command.reopen_tab
unfolding command_for_shortcut bytes_eq
shortcut-reopen = refl
