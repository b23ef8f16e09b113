-- ===== src/UserData/Privacy.antt =====
-- What a private session of src/user_data.cpp records.
use vant.Prelude.{
  ℕ, ◌≡◌, ◌∙◌, refl, inl, inr, Bool, true, false, not, ◌||◌, ◌==◌, List, [], ◌∷◌, Option, some,
  if◌then◌else◌, arith, Bytes, Bool-cases,
}
use vant.UserData.{
  Permission, Bookmark, UserDataStore, Outcome, add_bookmark, remove_bookmark, update_bookmark,
  set_favicon, add_history, clear_history, remove_history, set_permission, is_http,
}
use vant.UserData.Downloads.{
  add_download, update_download, update_download_progress, remove_download, reconcile_downloads,
}
use vant.Strings.{is_empty}

-- A call of the store; where a Boolean comes first, it says whether the call's statement succeeds.
pub data Call : Type 0 where
  bookmark : Bool → Bookmark → Call
  forget_bookmark : Bool → Bytes → Call
  edit_bookmark : Bool → Bool → Bytes → Bookmark → Call
  icon : Bool → Bytes → Bytes → Call
  visit : Bool → ℕ → Bytes → Bytes → ℕ → Call
  clear : Bool → Call
  forget_visits : (ℕ → Bool) → List ℕ → Call
  decide : Bool → Bytes → Bytes → Permission → Call
  download : Bool → ℕ → Bytes → Bytes → Bytes → ℕ → Call
  download_status : Bool → ℕ → Bytes → Call
  download_progress : Bool → ℕ → ℕ → ℕ → Call
  forget_download : Bool → ℕ → Call
  reconcile : (Bytes → Option ℕ) → Call

unfoldable pub perform : Call → UserDataStore → UserDataStore
perform (bookmark works b) d = (add_bookmark works b d).0
perform (forget_bookmark works uri) d = (remove_bookmark works uri d).0
perform (edit_bookmark deletes inserts old_uri b) d =
    (update_bookmark deletes inserts old_uri b d).0
perform (icon works page uri) d = (set_favicon works page uri d).0
perform (visit works rowid uri title at) d = (add_history works rowid uri title at d).0
perform (clear works) d = (clear_history works d).0
perform (forget_visits works ids) d = (remove_history works ids d).0
perform (decide works origin capability value) d =
    (set_permission works origin capability value d).0
perform (download works rowid uri destination status at) d =
    (add_download works rowid uri destination status at d).0
perform (download_status works id status) d = (update_download works id status d).0
perform (download_progress works id received total) d =
    (update_download_progress works id received total d).0
perform (forget_download works id) d = (remove_download works id d).0
perform (reconcile files) d = reconcile_downloads files d

unfoldable pub perform_all : List Call → UserDataStore → UserDataStore
perform_all [] d = d
perform_all (c ∷ cs) d = perform_all cs (perform c d)

-- What is kept of the pages that were visited.
pub record SameTraces (d e : UserDataStore) : Type 0 where
  pub mode : e.private_mode ≡ d.private_mode
  pub visits : e.history_rows ≡ d.history_rows
  pub files : e.download_rows ≡ d.download_rows
  pub icons : e.favicon_rows ≡ d.favicon_rows

SameTraces-refl : (d : UserDataStore) → SameTraces d d
SameTraces-refl d = record { mode = refl; visits = refl; files = refl; icons = refl }

SameTraces-trans : (d e f : UserDataStore) → SameTraces d e → SameTraces e f → SameTraces d f
SameTraces-trans d e f h k = record {
  mode = k.mode ∙ h.mode;
  visits = k.visits ∙ h.visits;
  files = k.files ∙ h.files;
  icons = k.icons ∙ h.icons;
}

add_bookmark-SameTraces :
    (works : Bool) (b : Bookmark) (d : UserDataStore) → SameTraces d (add_bookmark works b d).0
unfolding add_bookmark
add_bookmark-SameTraces works b d = elim (Bool-cases (is_empty b.uri)) [
  | inl empty ↦ rw empty (SameTraces-refl d)
  | inr filled ↦ elim (Bool-cases works) [
    | inl runs ↦
        rw (filled, runs) (record { mode = refl; visits = refl; files = refl; icons = refl })
    | inr fails ↦ rw (filled, fails) (SameTraces-refl d)
  ]
]

remove_bookmark-SameTraces :
    (works : Bool) (uri : Bytes) (d : UserDataStore) → SameTraces d (remove_bookmark works uri d).0
unfolding remove_bookmark
remove_bookmark-SameTraces true uri d = record {
  mode = refl;
  visits = refl;
  files = refl;
  icons = refl;
}
remove_bookmark-SameTraces false uri d = SameTraces-refl d

update_bookmark-SameTraces :
    (deletes inserts : Bool) (old_uri : Bytes) (b : Bookmark) (d : UserDataStore)
    → SameTraces d (update_bookmark deletes inserts old_uri b d).0
unfolding update_bookmark
update_bookmark-SameTraces deletes inserts old_uri b d =
    elim (Bool-cases (is_empty b.uri || not deletes)) [
      | inl refused ↦ rw refused (SameTraces-refl d)
      | inr runs ↦ rw runs (
          SameTraces-trans _ _ _ (remove_bookmark-SameTraces true old_uri d)
            (add_bookmark-SameTraces inserts b _))
    ]

set_permission-SameTraces :
    (works : Bool) (origin capability : Bytes) (value : Permission) (d : UserDataStore)
    → SameTraces d (set_permission works origin capability value d).0
unfolding set_permission
set_permission-SameTraces works origin capability value d = elim (Bool-cases (is_http origin)) [
  | inr other ↦ rw other (SameTraces-refl d)
  | inl web ↦ elim (Bool-cases works) [
    | inr fails ↦ rw (web, fails) (SameTraces-refl d)
    | inl runs ↦ rw (web, runs) (record { mode = refl; visits = refl; files = refl; icons = refl })
  ]
]

-- A call that returns at once.
ignored :
    (test kept : Bool) (d : UserDataStore) (x : Outcome)
    → test ≡ true
    → SameTraces d (if test then (d, kept) else x).0
ignored true kept d x h = SameTraces-refl d
ignored false kept d x h = ground (arith, h)

added-SameTraces :
    (test : Bool) (d : UserDataStore) (x : UserDataStore × Option ℕ)
    → test ≡ true
    → SameTraces d (if test then (d, some 0) else x).0
added-SameTraces true d x h = SameTraces-refl d
added-SameTraces false d x h = ground (arith, h)

unread-SameTraces :
    (test : Bool) (d x : UserDataStore) → test ≡ true → SameTraces d (if test then d else x)
unread-SameTraces true d x h = SameTraces-refl d
unread-SameTraces false d x h = ground (arith, h)

-- The calls that a private session leaves without effect.
perform-SameTraces :
    (c : Call) (d : UserDataStore) → d.private_mode ≡ true → SameTraces d (perform c d)
unfolding perform set_favicon add_history clear_history remove_history add_download update_download
    update_download_progress remove_download reconcile_downloads
perform-SameTraces (bookmark works b) d h = add_bookmark-SameTraces works b d
perform-SameTraces (forget_bookmark works uri) d h = remove_bookmark-SameTraces works uri d
perform-SameTraces (edit_bookmark deletes inserts old_uri b) d h =
    update_bookmark-SameTraces deletes inserts old_uri b d
perform-SameTraces (icon works page uri) d h =
    ignored (d.private_mode || is_empty page || is_empty uri) true d _ (ground (arith, h))
perform-SameTraces (visit works rowid uri title at) d h =
    ignored (d.private_mode || is_empty uri) true d _ (ground (arith, h))
perform-SameTraces (clear works) d h = ignored d.private_mode true d _ h
perform-SameTraces (forget_visits works ids) d h = ignored d.private_mode true d _ h
perform-SameTraces (decide works origin capability value) d h =
    set_permission-SameTraces works origin capability value d
perform-SameTraces (download works rowid uri destination status at) d h =
    added-SameTraces d.private_mode d _ h
perform-SameTraces (download_status works id status) d h =
    ignored (d.private_mode || id == 0) true d _ (ground (arith, h))
perform-SameTraces (download_progress works id received total) d h =
    ignored (d.private_mode || id == 0) true d _ (ground (arith, h))
perform-SameTraces (forget_download works id) d h = ignored d.private_mode true d _ h
perform-SameTraces (reconcile files) d h = unread-SameTraces d.private_mode d _ h

-- Whatever is called in a private session, the history, the downloads and the icons stay as they
-- were, and the session stays private.
pub perform_all-SameTraces :
    (cs : List Call) (d : UserDataStore) → d.private_mode ≡ true → SameTraces d (perform_all cs d)
unfolding perform_all
perform_all-SameTraces [] d h = SameTraces-refl d
perform_all-SameTraces (c ∷ cs) d h =
    let one = perform-SameTraces c d h in
    SameTraces-trans _ _ _ one (perform_all-SameTraces cs (perform c d) (one.mode ∙ h))
