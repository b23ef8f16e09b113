-- ===== src/UserData/Permissions.antt =====
-- What src/user_data.cpp answers after a permission or a bookmark was written.
use vant.Prelude.{
  ◌≡◌, refl, inl, inr, Bool, not, ◌&&◌, ◌||◌, List, [], ◌∷◌, arith, Bytes, bytes_eq, bytes_eq_iff,
  Bool-cases, if◌then◌else◌,
}
use vant.Strings.{is_empty}
use vant.Session.{c_str}
use vant.UserData.{
  Permission, Bookmark, PermissionEntry, UserDataStore, is_http, put_permission, set_permission,
  find_permission, permission, put_bookmark, delete_bookmark, has_bookmark, is_bookmarked,
  add_bookmark, remove_bookmark, update_bookmark,
}

find_permission-put :
    (o c : Bytes) (e : PermissionEntry) (rows : List PermissionEntry)
    → find_permission o c (put_permission e rows) ≡ (
        if bytes_eq e.origin o && bytes_eq e.capability c
        then e.decision
        else find_permission o c rows)
unfolding find_permission put_permission
find_permission-put o c e [] = refl
find_permission-put o c e (x ∷ xs) = ground (
  arith,
  find_permission-put o c e xs,
  bytes_eq_iff x.origin e.origin,
  bytes_eq_iff x.capability e.capability,
  bytes_eq_iff x.origin o,
  bytes_eq_iff x.capability c,
  bytes_eq_iff e.origin o,
  bytes_eq_iff e.capability c,
)

-- A permission that was set for an origin of the Web is the answer for that origin and capability
-- from then on, every other answer is as before, and a call that throws changes no answer.
pub permission-set_permission :
    (works : Bool) (origin capability o c : Bytes) (value : Permission) (d : UserDataStore)
    → permission o c (set_permission works origin capability value d).0 ≡ (
        if (is_http origin && works)
          && (bytes_eq (c_str origin) (c_str o) && bytes_eq (c_str capability) (c_str c))
        then value
        else permission o c d)
unfolding set_permission
permission-set_permission works origin capability o c value d = elim (Bool-cases (is_http origin)) [
  | inr other ↦ rw other refl
  | inl web ↦ elim (Bool-cases works) [
    | inr fails ↦ rw (web, fails) refl
    | inl runs ↦ rw (web, runs) (find_permission-put _ _ _ d.permission_rows)
  ]
]

has_bookmark-put :
    (u : Bytes) (b : Bookmark) (rows : List Bookmark)
    → has_bookmark u (put_bookmark b rows) ≡ (bytes_eq b.uri u || has_bookmark u rows)
unfolding has_bookmark put_bookmark
has_bookmark-put u b [] = refl
has_bookmark-put u b (x ∷ xs) =
    ground (arith, has_bookmark-put u b xs, bytes_eq_iff x.uri b.uri, bytes_eq_iff x.uri u)

has_bookmark-delete :
    (u v : Bytes) (rows : List Bookmark)
    → has_bookmark u (delete_bookmark v rows) ≡ (not (bytes_eq v u) && has_bookmark u rows)
unfolding has_bookmark delete_bookmark
has_bookmark-delete u v [] = ground arith
has_bookmark-delete u v (x ∷ xs) = ground (
  arith,
  has_bookmark-delete u v xs,
  bytes_eq_iff x.uri v,
  bytes_eq_iff x.uri u,
  bytes_eq_iff v u,
)

-- After a bookmark was edited an address is bookmarked if it is the new one, or if it was
-- bookmarked and is not the old one; if the second statement fails the old bookmark is gone and the
-- new one is not there; if the new address is empty or the first statement fails nothing changes.
pub is_bookmarked-update_bookmark :
    (deletes inserts : Bool) (old_uri u : Bytes) (b : Bookmark) (d : UserDataStore)
    → is_bookmarked u (update_bookmark deletes inserts old_uri b d).0 ≡ (
        if is_empty b.uri || not deletes
        then is_bookmarked u d
        else (inserts && bytes_eq (c_str b.uri) (c_str u))
          || (not (bytes_eq (c_str old_uri) (c_str u)) && is_bookmarked u d))
unfolding is_bookmarked update_bookmark remove_bookmark add_bookmark
is_bookmarked-update_bookmark deletes inserts old_uri u b d = elim (Bool-cases (is_empty b.uri)) [
  | inl empty ↦ rw empty refl
  | inr filled ↦ elim (Bool-cases deletes) [
    | inr fails ↦ rw (filled, fails) refl
    | inl runs ↦ elim (Bool-cases inserts) [
      | inr lost ↦ rw (filled, runs, lost) (has_bookmark-delete _ _ d.bookmark_rows)
      | inl put ↦
          rw (filled, runs, put, has_bookmark-put (c_str u))
            (rw (has_bookmark-delete (c_str u) (c_str old_uri) d.bookmark_rows) refl)
    ]
  ]
]
