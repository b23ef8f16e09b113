-- ===== src/UserData/Reconcile.antt =====
-- src/user_data.cpp: what `reconcile_downloads` leaves.
use vant.Prelude.{
  ℕ, ◌≡◌, ◌≤◌, ◌∙◌, refl, ap, inl, inr, Bool, true, false, not, ◌||◌, ◌&&◌, List, [], ◌∷◌, Option,
  arith, Bytes, bytes_eq, All, Bool-cases, ltb, ◌==◌, take, length, ◌+◌, suc, zero, if_intro,
}
use vant.Session.{c_str}
use vant.Strings.{until}
use vant.UserData.{DownloadEntry, UserDataStore}
use vant.UserData.Downloads.{
  downloading, complete, interrupted, change_row, update_download, update_download_progress,
  insert_download, sort_downloads, is_complete, reconcile_one, reconcile_each, reconcile_downloads,
  with_status, with_progress,
}

abbrev is_running : DownloadEntry → Bool
is_running e = bytes_eq e.status downloading

-- A running download with this number is among the rows.
unfoldable awaited : ℕ → List DownloadEntry → Bool
awaited id [] = false
awaited id (e ∷ es) = (e.id == id && is_running e) || awaited id es

abbrev Awaits : List DownloadEntry → DownloadEntry → Type 0
Awaits es x = (not (is_running x) || awaited x.id es) ≡ true

abbrev IsNumbered : DownloadEntry → Type 0
IsNumbered e = ltb 0 e.id ≡ true

All-weaken :
    (P Q : DownloadEntry → Type 0) (xs : List DownloadEntry)
    → ((x : DownloadEntry) → P x → Q x)
    → All P xs
    → All Q xs
All-weaken P Q [] f h = tt
All-weaken P Q (x ∷ xs) f h = (f x h.0, All-weaken P Q xs f h.1)

awaited-insert :
    (id : ℕ) (e : DownloadEntry) (es : List DownloadEntry)
    → awaited id (insert_download e es) ≡ ((e.id == id && is_running e) || awaited id es)
unfolding awaited insert_download
awaited-insert id e [] = refl
awaited-insert id e (x ∷ xs) = ground (arith, awaited-insert id e xs)

awaited-sort : (id : ℕ) (es : List DownloadEntry) → awaited id (sort_downloads es) ≡ awaited id es
unfolding awaited sort_downloads
awaited-sort id [] = refl
awaited-sort id (e ∷ es) = awaited-insert id e (sort_downloads es) ∙ rw (awaited-sort id es) refl

insert-All :
    (P : DownloadEntry → Type 0) (e : DownloadEntry) (es : List DownloadEntry)
    → P e
    → All P es
    → All P (insert_download e es)
unfolding insert_download
insert-All P e [] p h = (p, tt)
insert-All P e (x ∷ xs) p h = ground (arith, insert-All P e xs p h.1)

sort-All :
    (P : DownloadEntry → Type 0) (es : List DownloadEntry) → All P es → All P (sort_downloads es)
unfolding sort_downloads
sort-All P [] h = tt
sort-All P (e ∷ es) h = insert-All P e (sort_downloads es) h.0 (sort-All P es h.1)

length-insert :
    (e : DownloadEntry) (es : List DownloadEntry) → length (insert_download e es) ≡ length es + 1
unfolding insert_download
length-insert e [] = refl
length-insert e (x ∷ xs) = ground (arith, length-insert e xs)

length-sort : (es : List DownloadEntry) → length (sort_downloads es) ≡ length es
unfolding sort_downloads
length-sort [] = refl
length-sort (e ∷ es) = omega (arith, length-insert e (sort_downloads es), length-sort es)

take_all : (n : ℕ) (es : List DownloadEntry) → length es ≤ n → take n es ≡ es
take_all zero [] h = refl
take_all zero (e ∷ es) h = ground (arith, h)
take_all (suc n) [] h = refl
take_all (suc n) (e ∷ es) h = ap (λ r. e ∷ r) (take_all n es (omega (arith, h)))

-- Every running row is awaited in the rows.
running-Awaits : (es : List DownloadEntry) → All (Awaits es) es
unfolding awaited
running-Awaits [] = tt
running-Awaits (e ∷ es) = (
  ground arith,
  All-weaken (Awaits es) (Awaits (e ∷ es)) es (λ x h. ground (arith, h)) (running-Awaits es),
)

progress-Awaits :
    (es : List DownloadEntry) (id received total : ℕ) (rows : List DownloadEntry)
    → All (Awaits es) rows
    → All (Awaits es) (change_row id (with_progress received total) rows)
unfolding change_row
progress-Awaits es id received total [] h = tt
progress-Awaits es id received total (x ∷ xs) h =
    let rest = progress-Awaits es id received total xs h.1 in
    elim (Bool-cases (x.id == id)) [
      | inl same ↦ rw same (h.0, rest)
      | inr other ↦ rw other (h.0, rest)
    ]

status-Awaits :
    (e : DownloadEntry) (es : List DownloadEntry) (status : Bytes) (rows : List DownloadEntry)
    → bytes_eq (c_str status) downloading ≡ false
    → All (Awaits (e ∷ es)) rows
    → All (Awaits es) (change_row e.id (with_status status) rows)
unfolding change_row awaited
status-Awaits e es status [] idle h = tt
status-Awaits e es status (x ∷ xs) idle h =
    let rest = status-Awaits e es status xs idle h.1 in
    elim (Bool-cases (x.id == e.id)) [
      | inl same ↦ rw same (ground (arith, idle), rest)
      | inr other ↦ rw other (ground (arith, h.0, other), rest)
    ]

update_download-Awaits :
    (e : DownloadEntry) (es : List DownloadEntry) (status : Bytes) (d : UserDataStore)
    → d.private_mode ≡ false
    → IsNumbered e
    → bytes_eq (c_str status) downloading ≡ false
    → All (Awaits (e ∷ es)) d.download_rows
    → All (Awaits es) (update_download true e.id status d).0.download_rows
unfolding update_download
update_download-Awaits e es status d normal numbered idle h =
    let some_id = nonzero e.id numbered in
    rw (normal, some_id) (status-Awaits e es status d.download_rows idle h)
  where
    nonzero : (n : ℕ) → ltb 0 n ≡ true → (n == 0) ≡ false
    nonzero zero h = ground (arith, h)
    nonzero (suc n) h = ground arith

progress_changed-Awaits :
    (es : List DownloadEntry) (id received total : ℕ) (d : UserDataStore)
    → All (Awaits es) d.download_rows
    → All (Awaits es) (update_download_progress true id received total d).0.download_rows
unfolding update_download_progress
progress_changed-Awaits es id received total d h = elim (Bool-cases (d.private_mode || id == 0)) [
  | inl ignored ↦ rw ignored h
  | inr taken ↦ rw taken (progress-Awaits es id received total d.download_rows h)
]

progress-private_mode :
    (id received total : ℕ) (d : UserDataStore)
    → (update_download_progress true id received total d).0.private_mode ≡ d.private_mode
unfolding update_download_progress
progress-private_mode id received total d = elim (Bool-cases (d.private_mode || id == 0)) [
  | inl ignored ↦ rw ignored refl
  | inr taken ↦ rw taken refl
]

status-private_mode :
    (id : ℕ) (status : Bytes) (d : UserDataStore)
    → (update_download true id status d).0.private_mode ≡ d.private_mode
unfolding update_download
status-private_mode id status d = elim (Bool-cases (d.private_mode || id == 0)) [
  | inl ignored ↦ rw ignored refl
  | inr taken ↦ rw taken refl
]

skipped-Awaits :
    (e : DownloadEntry) (es rows : List DownloadEntry)
    → is_running e ≡ false
    → All (Awaits (e ∷ es)) rows
    → All (Awaits es) rows
unfolding awaited
skipped-Awaits e es rows idle h =
    All-weaken (Awaits (e ∷ es)) (Awaits es) rows (λ x k. ground (arith, k, idle)) h

reconcile_one-Awaits :
    (file : Option ℕ) (e : DownloadEntry) (es : List DownloadEntry) (d : UserDataStore)
    → d.private_mode ≡ false
    → IsNumbered e
    → All (Awaits (e ∷ es)) d.download_rows
    → All (Awaits es) (reconcile_one file e d).download_rows
unfolding reconcile_one bytes_eq until
reconcile_one-Awaits file e es d normal numbered h = elim (Bool-cases (is_running e)) [
  | inr idle ↦ rw idle (skipped-Awaits e es d.download_rows idle h)
  | inl running ↦ elim (Bool-cases (is_complete file e.total)) [
    | inr missing ↦
        rw (running, missing) (update_download-Awaits e es interrupted d normal numbered refl h)
    | inl done ↦
        rw (running, done)
          (update_download-Awaits e es complete _ (progress-private_mode e.id _ _ d ∙ normal)
            numbered refl (progress_changed-Awaits (e ∷ es) e.id _ _ d h))
  ]
]

reconcile_one-private_mode :
    (file : Option ℕ) (e : DownloadEntry) (d : UserDataStore)
    → (reconcile_one file e d).private_mode ≡ d.private_mode
unfolding reconcile_one
reconcile_one-private_mode file e d = elim (Bool-cases (is_running e)) [
  | inr idle ↦ rw idle refl
  | inl running ↦ elim (Bool-cases (is_complete file e.total)) [
    | inr missing ↦ rw (running, missing) (status-private_mode e.id interrupted d)
    | inl done ↦
        rw (running, done) (status-private_mode e.id complete _ ∙ progress-private_mode e.id _ _ d)
  ]
]

reconcile_each-Awaits :
    (files : Bytes → Option ℕ) (es : List DownloadEntry) (d : UserDataStore)
    → d.private_mode ≡ false
    → All IsNumbered es
    → All (Awaits es) d.download_rows
    → All (Awaits []) (reconcile_each files es d).download_rows
unfolding reconcile_each
reconcile_each-Awaits files [] d normal numbered h = h
reconcile_each-Awaits files (e ∷ es) d normal numbered h =
    reconcile_each-Awaits files es _ (reconcile_one-private_mode (files e.destination) e d ∙ normal)
      numbered.1 (reconcile_one-Awaits (files e.destination) e es d normal numbered.0 h)

-- After `reconcile_downloads` in a normal session no download is running, where the rows are at most
-- the 500 that `downloads()` reads, are numbered from 1, and SQLite's statements succeed.
pub reconcile_downloads-settled :
    (files : Bytes → Option ℕ) (d : UserDataStore)
    → d.private_mode ≡ false
    → length d.download_rows ≤ 500
    → All (λ (e : DownloadEntry). ltb 0 e.id ≡ true) d.download_rows
    → All
        (λ (e : DownloadEntry). bytes_eq e.status downloading ≡ false)
        (reconcile_downloads files d).download_rows
unfolding reconcile_downloads awaited
reconcile_downloads-settled files d normal few numbered =
    let rows = d.download_rows in
    let all = take_all 500 (sort_downloads rows) (omega (arith, length-sort rows, few)) in
    let settled =
      reconcile_each-Awaits files (sort_downloads rows) d normal (sort-All IsNumbered rows numbered)
        (All-weaken (Awaits rows) (Awaits (sort_downloads rows)) rows
          (λ x h. rw (awaited-sort x.id rows) h) (running-Awaits rows)) in
    if_intro
      (λ (x : UserDataStore). All (λ (e : DownloadEntry). is_running e ≡ false) x.download_rows)
      d.private_mode _ _ (λ private. ground (arith, private, normal))
      (λ _.
        rw all
          (All-weaken (Awaits []) (λ e. is_running e ≡ false) _ (λ x h. ground (arith, h)) settled))
