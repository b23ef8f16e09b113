-- ===== src/UserData/Listed.antt =====
-- src/user_data.cpp, `permissions`: the rows of the table in their order.
use vant.Prelude.{◌&&◌, ◌||◌, List, [], ◌∷◌, if◌then◌else◌, bytes_eq}
use vant.Preferences.{bytes_lt}
use vant.UserData.{PermissionEntry, UserDataStore}

-- `ORDER BY origin,capability`.
unfoldable pub insert_permission : PermissionEntry → List PermissionEntry → List PermissionEntry
insert_permission e [] = e ∷ []
insert_permission e (x ∷ xs) =
    if bytes_lt x.origin e.origin
      || (bytes_eq x.origin e.origin && bytes_lt x.capability e.capability)
    then x ∷ insert_permission e xs
    else e ∷ x ∷ xs

unfoldable pub sort_permissions : List PermissionEntry → List PermissionEntry
unfolding insert_permission
sort_permissions [] = []
sort_permissions (e ∷ es) = insert_permission e (sort_permissions es)

abbrev pub permissions : UserDataStore → List PermissionEntry
permissions d = sort_permissions d.permission_rows
