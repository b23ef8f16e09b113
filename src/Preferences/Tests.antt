-- ===== src/Preferences/Tests.antt =====
-- Runs of the preferences, and their theorems at concrete values.
use vant.Prelude.{◌≡◌, refl, [], ◌∷◌, codes, bytes_eq}
use vant.Strings.{is_empty}
use vant.Preferences.{
  Values, bytes_lt, split_parts, sort, insert_sorted, unique, split_domains, domains_key,
}

abbrev stored : Values
stored = (domains_key, codes "b.org|a.org|b.org|") ∷ []

split-stored : split_domains (codes "b.org|a.org|b.org|") ≡ codes "a.org" ∷ codes "b.org" ∷ []
unfolding split_domains split_parts sort insert_sorted unique is_empty bytes_lt bytes_eq
split-stored = refl
