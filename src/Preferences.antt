-- ===== src/Preferences.antt =====
-- src/preferences.cpp: the preferences file as lines `key=value`, and the list of domains with dark
-- mode. The `std::map` is an association list with its keys in rising order; the file is its bytes,
-- and what the environment, the directory and the rename do is left out.
pub mod DarkMode
pub mod Domains
pub mod File
pub mod FileTests
pub mod Maps
pub mod Order
pub mod Rendering
pub mod RoundTrip
pub mod Settings
pub mod Tests
use vant.Prelude.{
  ℕ, Bool, true, false, not, ◌&&◌, ◌||◌, List, [], ◌∷◌, ◌++◌, Option, none, some, ltb, ◌==◌,
  if◌then◌else◌, Bytes, codes, bytes_eq,
}
use vant.Strings.{is_empty, contains}

-- `std::string`'s order.
unfoldable pub bytes_lt : Bytes → Bytes → Bool
bytes_lt [] [] = false
bytes_lt [] (y ∷ ys) = true
bytes_lt (x ∷ xs) [] = false
bytes_lt (x ∷ xs) (y ∷ ys) = ltb x y || (x == y && bytes_lt xs ys)

-- The loop of `split_domains`: `cur` is the part from `start` to the place that is read.
unfoldable pub split_parts : Bytes → Bytes → List Bytes
split_parts [] cur = if is_empty cur then [] else cur ∷ []
split_parts (c ∷ s) cur =
    let rest = split_parts s (if c == b'|' then [] else cur ++ c ∷ []) in
    if c == b'|' && not (is_empty cur) then cur ∷ rest else rest

-- `std::sort`, whose result for a total order does not depend on the algorithm.
unfoldable pub insert_sorted : Bytes → List Bytes → List Bytes
insert_sorted d [] = d ∷ []
insert_sorted d (e ∷ es) = if bytes_lt e d then e ∷ insert_sorted d es else d ∷ e ∷ es

unfoldable pub sort : List Bytes → List Bytes
unfolding insert_sorted
sort [] = []
sort (d ∷ ds) = insert_sorted d (sort ds)

-- `std::unique`: of equal neighbours the first is kept.
unfoldable pub unique_after : Bytes → List Bytes → List Bytes
unique_after last [] = []
unique_after last (d ∷ ds) =
    let rest = unique_after d ds in if bytes_eq last d then rest else d ∷ rest

unfoldable pub unique : List Bytes → List Bytes
unfolding unique_after
unique [] = []
unique (d ∷ ds) = d ∷ unique_after d ds

unfoldable pub split_domains : Bytes → List Bytes
split_domains value = unique (sort (split_parts value []))

-- The loop of `join_domains`, with its `result`.
unfoldable pub join_onto : Bytes → List Bytes → Bytes
join_onto result [] = result
join_onto result (d ∷ ds) =
    join_onto ((if is_empty result then result else result ++ b'|' ∷ []) ++ d) ds

unfoldable pub join_domains : List Bytes → Bytes
unfolding join_onto
join_domains domains = join_onto [] domains

abbrev pub Values : Type 0
Values = List (Bytes × Bytes)

-- `values.find`.
unfoldable pub lookup : Bytes → Values → Option Bytes
lookup k [] = none
lookup k ((j, v) ∷ m) = if bytes_eq j k then some v else lookup k m

-- `values[k] = v`.
unfoldable pub assign : Bytes → Bytes → Values → Values
assign k v [] = (k, v) ∷ []
assign k v ((j, w) ∷ m) =
    if bytes_eq j k
    then (k, v) ∷ m
    else if bytes_lt k j
    then (k, v) ∷ (j, w) ∷ m
    else (j, w) ∷ assign k v m

-- `values.erase`.
unfoldable pub erase : Bytes → Values → Values
erase k [] = []
erase k ((j, w) ∷ m) = if bytes_eq j k then m else (j, w) ∷ erase k m

abbrev pub video_key : Bytes
video_key = codes "compatibility_video_rendering_v3"

abbrev pub domains_key : Bytes
domains_key = codes "dark_mode_enabled_domains"

abbrev is_one : Option Bytes → Bool
is_one none = false
is_one (some v) = bytes_eq v (codes "1")

unfoldable pub compatibility_video_rendering : Values → Bool
compatibility_video_rendering values = is_one (lookup video_key values)

unfoldable pub set_compatibility_video_rendering : Bool → Values → Values
set_compatibility_video_rendering enabled values =
    assign video_key (if enabled then codes "1" else codes "0") values

abbrev split_found : Option Bytes → List Bytes
split_found none = []
split_found (some v) = split_domains v

unfoldable pub dark_mode_enabled_domains : Values → List Bytes
dark_mode_enabled_domains values = split_found (lookup domains_key values)

-- `std::find` over the domains.
unfoldable pub has_domain : Bytes → List Bytes → Bool
has_domain d [] = false
has_domain d (e ∷ es) = bytes_eq e d || has_domain d es

unfoldable pub dark_mode_enabled_for_domain : Values → Bytes → Bool
dark_mode_enabled_for_domain values domain = has_domain domain (dark_mode_enabled_domains values)

-- `domains.erase(found)`.
unfoldable pub erase_domain : Bytes → List Bytes → List Bytes
erase_domain d [] = []
erase_domain d (e ∷ es) = if bytes_eq e d then es else e ∷ erase_domain d es

unfoldable pub update_domains : Bool → Bytes → List Bytes → List Bytes
update_domains enabled domain domains = sort (
    if enabled && not (has_domain domain domains)
    then domains ++ domain ∷ []
    else if not enabled && has_domain domain domains
    then erase_domain domain domains
    else domains)

-- What the setter of a domain writes back.
unfoldable pub with_domain : Bytes → Bool → Values → Values
with_domain domain enabled values =
    if is_empty domain || contains b'|' domain
    then values
    else erase (codes "dark_mode_disabled_domains") (
        erase (codes "dark_mode") (
          assign domains_key
            (join_domains (update_domains enabled domain (dark_mode_enabled_domains values)))
            values))
