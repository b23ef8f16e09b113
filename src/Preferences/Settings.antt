-- ===== src/Preferences/Settings.antt =====
-- The settings of preferences.cpp that are read back after one is set.
use vant.Prelude.{
  ◌≡◌, refl, ap, ◌∙◌, ◌⊎◌, inl, inr, Bool, true, false, ◌||◌, [], ◌∷◌, some, arith, if◌then◌else◌,
  Bytes, codes, bytes_eq, bytes_eq_iff, All, Option-cases, Bool-cases,
}
use vant.Strings.{is_empty, contains}
use vant.Preferences.{
  Values, is_one, split_found, lookup, assign, erase, video_key, domains_key, split_domains,
  join_domains, has_domain, update_domains, compatibility_video_rendering,
  set_compatibility_video_rendering, dark_mode_enabled_domains, dark_mode_enabled_for_domain,
  with_domain,
}
use vant.Preferences.Domains.{
  IsDomain, split_domains-Distinct, split_domains-All, has_domain-update, update-All,
  has_domain-split-join,
}
use vant.Preferences.Order.{Distinct}

pub lookup-assign_self : (k v : Bytes) (m : Values) → lookup k (assign k v m) ≡ some v
unfolding lookup assign
lookup-assign_self k v [] = ground (arith, bytes_eq_iff k k)
lookup-assign_self k v ((j, w) ∷ m) = ground (arith, bytes_eq_iff k k, lookup-assign_self k v m)

pub lookup-assign_ne :
    (k j v : Bytes) (m : Values) → bytes_eq j k ≡ false → lookup k (assign j v m) ≡ lookup k m
unfolding lookup assign
lookup-assign_ne k j v [] h = ground arith
lookup-assign_ne k j v ((i, w) ∷ m) h =
    ground (arith, bytes_eq_iff i j, bytes_eq_iff i k, bytes_eq_iff j k, lookup-assign_ne k j v m h)

pub lookup-erase_ne :
    (k j : Bytes) (m : Values) → bytes_eq j k ≡ false → lookup k (erase j m) ≡ lookup k m
unfolding lookup erase
lookup-erase_ne k j [] h = refl
lookup-erase_ne k j ((i, w) ∷ m) h =
    ground (arith, bytes_eq_iff i j, bytes_eq_iff i k, bytes_eq_iff j k, lookup-erase_ne k j m h)

-- The two keys that are removed are others than the domains' and the video's.
keys :
    (bytes_eq (codes "dark_mode_disabled_domains") domains_key ≡ false)
    × (bytes_eq (codes "dark_mode") domains_key ≡ false)
    × (bytes_eq (codes "dark_mode_disabled_domains") video_key ≡ false)
    × (bytes_eq (codes "dark_mode") video_key ≡ false)
    × (bytes_eq domains_key video_key ≡ false)
    × (bytes_eq video_key domains_key ≡ false)
unfolding bytes_eq
keys = (refl, refl, refl, refl, refl, refl)

-- What the setter leaves under the key of the domains.
lookup_domains :
    (domain : Bytes) (enabled : Bool) (values : Values)
    → IsDomain domain
    → lookup domains_key (with_domain domain enabled values)
      ≡ some (join_domains (update_domains enabled domain (dark_mode_enabled_domains values)))
unfolding with_domain
lookup_domains domain enabled values (h, k) =
    rw (h, k)
      (lookup-erase_ne domains_key (codes "dark_mode_disabled_domains") _ keys.0
        ∙ lookup-erase_ne domains_key (codes "dark_mode") _ keys.1
        ∙ lookup-assign_self domains_key _ values)

domains-valid :
    (values : Values)
    → Distinct (dark_mode_enabled_domains values) × All IsDomain (dark_mode_enabled_domains values)
unfolding dark_mode_enabled_domains
domains-valid values = elim (Option-cases (lookup domains_key values)) [
  | inl miss ↦ rw (miss, dark_mode_enabled_domains) (tt, tt)
  | inr (v, found) ↦
      rw (found, dark_mode_enabled_domains) (split_domains-Distinct v, split_domains-All v)
]

domains_found :
    (values : Values) (v : Bytes)
    → lookup domains_key values ≡ some v
    → dark_mode_enabled_domains values ≡ split_domains v
unfolding dark_mode_enabled_domains
domains_found values v e = ap split_found e

-- Setting dark mode for a domain, one that is not empty and has no `|`, is read back for it as it
-- was set, and for every other domain as it was before, whatever the preferences held.
pub dark_mode-with_domain :
    (domain : Bytes) (enabled : Bool) (values : Values) (d : Bytes)
    → IsDomain domain
    → dark_mode_enabled_for_domain (with_domain domain enabled values) d
      ≡ (if bytes_eq domain d then enabled else dark_mode_enabled_for_domain values d)
unfolding dark_mode_enabled_for_domain
dark_mode-with_domain domain enabled values d h =
    let old = domains-valid values in
    ap (has_domain d) (domains_found _ _ (lookup_domains domain enabled values h))
    ∙ has_domain-split-join d _ (update-All IsDomain enabled domain _ h old.1)
    ∙ has_domain-update d domain enabled _ old.0

-- A domain that is empty or has a `|` is not stored: the preferences stay as they were.
pub dark_mode-refused :
    (domain : Bytes) (enabled : Bool) (values : Values)
    → (is_empty domain ≡ true) ⊎ (contains b'|' domain ≡ true)
    → with_domain domain enabled values ≡ values
unfolding with_domain
dark_mode-refused domain enabled values h = ground arith

is_one-digit : (b : Bool) → is_one (some (if b then codes "1" else codes "0")) ≡ b
unfolding bytes_eq
is_one-digit true = refl
is_one-digit false = refl

-- The dark mode setter leaves the video key alone.
lookup_video :
    (domain : Bytes) (dark : Bool) (values : Values)
    → lookup video_key (with_domain domain dark values) ≡ lookup video_key values
unfolding with_domain
lookup_video domain dark values = elim (Bool-cases (is_empty domain || contains b'|' domain)) [
  | inl bad ↦ rw bad
  | inr good ↦ rw good (
      lookup-erase_ne video_key (codes "dark_mode_disabled_domains") _ keys.2
      ∙ lookup-erase_ne video_key (codes "dark_mode") _ keys.3
      ∙ lookup-assign_ne video_key domains_key _ values keys.4)
]

-- The video setting is read back as it was set, and changes no domain's dark mode; the dark mode
-- setter does not change the video setting.
pub video-set :
    (enabled : Bool) (values : Values) (domain : Bytes) (dark : Bool)
    → (compatibility_video_rendering (set_compatibility_video_rendering enabled values) ≡ enabled)
      × (dark_mode_enabled_domains (set_compatibility_video_rendering enabled values)
          ≡ dark_mode_enabled_domains values)
      × (compatibility_video_rendering (with_domain domain dark values)
          ≡ compatibility_video_rendering values)
unfolding compatibility_video_rendering set_compatibility_video_rendering dark_mode_enabled_domains
video-set enabled values domain dark = (
  ap is_one (lookup-assign_self video_key _ values) ∙ is_one-digit enabled,
  ap split_found (lookup-assign_ne domains_key video_key _ values keys.5),
  ap is_one (lookup_video domain dark values),
)
