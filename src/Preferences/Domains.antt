-- ===== src/Preferences/Domains.antt =====
-- The list of domains in preferences.cpp: splitting, joining and membership.
use vant.Prelude.{
  ℕ, ◌≡◌, refl, sym, ap, ◌∙◌, Bool, false, not, ◌&&◌, ◌||◌, List, [], ◌∷◌, ◌++◌, arith,
  if◌then◌else◌, Bytes, bytes_eq, bytes_eq_iff, All, All-append, append_assoc, append-nil,
}
use vant.Strings.{is_empty, contains}
use vant.Preferences.{
  split_parts, insert_sorted, sort, unique_after, unique, split_domains, join_onto, join_domains,
  has_domain, erase_domain, update_domains,
}
use vant.Preferences.Order.{
  sort-IsSorted, has_domain-sort, has_domain-unique, unique-Distinct, Distinct,
}

pub split_domains-Distinct : (value : Bytes) → Distinct (split_domains value)
unfolding split_domains
split_domains-Distinct value = unique-Distinct _ (sort-IsSorted (split_parts value []))

has_domain-append :
    (x : Bytes) (ds es : List Bytes)
    → has_domain x (ds ++ es) ≡ (has_domain x ds || has_domain x es)
unfolding has_domain
has_domain-append x [] es = refl
has_domain-append x (d ∷ ds) es = ground (arith, has_domain-append x ds es)

has_domain-erase :
    (x d : Bytes) (ds : List Bytes)
    → Distinct ds
    → has_domain x (erase_domain d ds) ≡ (not (bytes_eq d x) && has_domain x ds)
unfolding has_domain erase_domain
has_domain-erase x d [] h = ground arith
has_domain-erase x d (e ∷ ds) h =
    ground
      (arith, bytes_eq_iff e d, bytes_eq_iff d x, bytes_eq_iff e x, has_domain-erase x d ds h.1)

-- Setting a domain changes its own membership only.
pub has_domain-update :
    (x d : Bytes) (enabled : Bool) (ds : List Bytes)
    → Distinct ds
    → has_domain x (update_domains enabled d ds)
      ≡ (if bytes_eq d x then enabled else has_domain x ds)
unfolding update_domains has_domain
has_domain-update x d enabled ds h =
    has_domain-sort x _
    ∙ ground (arith, bytes_eq_iff d x, has_domain-append x ds (d ∷ []), has_domain-erase x d ds h)

-- A domain that the list can hold: not empty, and without the separator.
abbrev pub IsDomain : Bytes → Type 0
IsDomain d = (is_empty d ≡ false) × (contains b'|' d ≡ false)

-- What holds of all the domains holds of them in another order, and of some of them.
module _ (P : Bytes → Type 0) where
  insert_sorted-All : (d : Bytes) (es : List Bytes) → P d → All P es → All P (insert_sorted d es)
  unfolding insert_sorted
  insert_sorted-All d [] h k = (h, tt)
  insert_sorted-All d (e ∷ es) h k = ground (arith, insert_sorted-All d es h k.1)

  pub sort-All : (ds : List Bytes) → All P ds → All P (sort ds)
  unfolding sort
  sort-All [] h = tt
  sort-All (d ∷ ds) h = insert_sorted-All d (sort ds) h.0 (sort-All ds h.1)

  unique_after-All : (last : Bytes) (ds : List Bytes) → All P ds → All P (unique_after last ds)
  unfolding unique_after
  unique_after-All last [] h = tt
  unique_after-All last (d ∷ ds) h = ground (arith, unique_after-All d ds h.1)

  pub unique-All : (ds : List Bytes) → All P ds → All P (unique ds)
  unfolding unique
  unique-All [] h = tt
  unique-All (d ∷ ds) h = (h.0, unique_after-All d ds h.1)

  erase-All : (d : Bytes) (ds : List Bytes) → All P ds → All P (erase_domain d ds)
  unfolding erase_domain
  erase-All d [] h = tt
  erase-All d (e ∷ ds) h = ground (arith, erase-All d ds h.1)

  pub update-All :
      (enabled : Bool) (d : Bytes) (ds : List Bytes)
      → P d
      → All P ds
      → All P (update_domains enabled d ds)
  unfolding update_domains
  update-All enabled d ds h k =
      sort-All _ (ground (arith, All-append P ds (d ∷ []) k (h, tt), erase-All d ds k))

contains-append : (c : ℕ) (s t : Bytes) → contains c (s ++ t) ≡ (contains c s || contains c t)
unfolding contains
contains-append c [] t = refl
contains-append c (x ∷ s) t = ground (arith, contains-append c s t)

split_parts-All : (s cur : Bytes) → contains b'|' cur ≡ false → All IsDomain (split_parts s cur)
unfolding split_parts contains
split_parts-All [] cur h = ground arith
split_parts-All (c ∷ s) cur h = ground (
  arith,
  contains-append b'|' cur (c ∷ []),
  split_parts-All s [],
  split_parts-All s (cur ++ c ∷ []),
)

pub split_domains-All : (value : Bytes) → All IsDomain (split_domains value)
unfolding split_domains contains
split_domains-All value =
    unique-All IsDomain _ (sort-All IsDomain _ (split_parts-All value [] refl))

-- The domains with a separator in front of each.
tails : List Bytes → Bytes
tails [] = []
tails (d ∷ ds) = b'|' ∷ (d ++ tails ds)

append-is_empty : (r s : Bytes) → is_empty r ≡ false → is_empty (r ++ s) ≡ false
unfolding is_empty
append-is_empty [] s h = cc
append-is_empty (c ∷ r) s h = refl

join_onto-tails :
    (ds : List Bytes) (r : Bytes) → is_empty r ≡ false → join_onto r ds ≡ r ++ tails ds
unfolding join_onto tails
join_onto-tails [] r h = sym (append-nil r)
join_onto-tails (d ∷ ds) r h = rw h (
    join_onto-tails ds ((r ++ b'|' ∷ []) ++ d)
      (append-is_empty _ d (append-is_empty r (b'|' ∷ []) h))
    ∙ simp append_assoc)

split_parts-append :
    (d s cur : Bytes)
    → contains b'|' d ≡ false
    → split_parts (d ++ s) cur ≡ split_parts s (cur ++ d)
unfolding split_parts contains
split_parts-append [] s cur h = rw append-nil
split_parts-append (c ∷ d) s cur h =
    ground (arith, split_parts-append d s (cur ++ c ∷ []), append_assoc cur (c ∷ []) d)

split_parts-tails :
    (ds : List Bytes) (cur : Bytes)
    → is_empty cur ≡ false
    → All IsDomain ds
    → split_parts (tails ds) cur ≡ cur ∷ ds
unfolding split_parts tails
split_parts-tails [] cur h k = rw h
split_parts-tails (d ∷ ds) cur h (k, ks) =
    ground (arith, split_parts-append d (tails ds) [] k.1, split_parts-tails ds d k.0 ks)

-- Splitting the joined text gives the domains back.
pub split_parts-join_domains :
    (ds : List Bytes) → All IsDomain ds → split_parts (join_domains ds) [] ≡ ds
unfolding join_domains join_onto split_parts is_empty
split_parts-join_domains [] h = refl
split_parts-join_domains (d ∷ ds) (h, hs) =
    rw (join_onto-tails ds d h.0)
      (split_parts-append d (tails ds) [] h.1 ∙ split_parts-tails ds d h.0 hs)

-- What is written for valid domains is read back with the same members.
pub has_domain-split-join :
    (x : Bytes) (ds : List Bytes)
    → All IsDomain ds
    → has_domain x (split_domains (join_domains ds)) ≡ has_domain x ds
unfolding split_domains
has_domain-split-join x ds h =
    has_domain-unique x _ ∙ has_domain-sort x _ ∙ ap (has_domain x) (split_parts-join_domains ds h)
