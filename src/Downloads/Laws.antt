-- ===== src/Downloads/Laws.antt =====
-- src/native_app.cpp: what the signals of a download leave in the store.
use vant.Prelude.{
  ℕ, ◌≡◌, ◌∙◌, refl, ap, subst, sym, inl, inr, Bool, true, false, not, ◌&&◌, ◌||◌, ◌==◌, List, [],
  ◌∷◌, map, Option, none, some, arith, Bytes, Bool-cases, if◌then◌else◌, if_intro,
}
use vant.Strings.{is_empty, until}
use vant.UserData.{DownloadEntry, UserDataStore}
use vant.UserData.Downloads.{
  change_row, with_progress, with_status, update_download, update_download_progress, complete,
}
use vant.Downloads.{
  DownloadContext, Signal, placed, download_created_destination, download_failed, download_received,
  download_finished, handle, handle_all, is_recorded, length_or,
}

abbrev pub said : DownloadEntry → ℕ × Bytes
said x = (x.id, x.status)

-- The rows' numbers with what is said of them.
abbrev pub statuses : UserDataStore → List (ℕ × Bytes)
statuses d = map said d.download_rows

-- What the handlers read of a download, and keep.
record SameFlags (c e : DownloadContext) : Type 0 where
  pub mode : e.private_mode ≡ c.private_mode
  pub stopped : e.cancelled ≡ c.cancelled
  pub row : e.record_id ≡ c.record_id

placed-SameFlags :
    (path : Option Bytes) (home : Bytes) (c : DownloadContext) → SameFlags c (placed path home c)
placed-SameFlags none home c =
    if_intro (SameFlags c) (is_empty c.destination) _ _
      (λ _. record { mode = refl; stopped = refl; row = refl })
      (λ _. record { mode = refl; stopped = refl; row = refl })
placed-SameFlags (some path) home c =
    if_intro (SameFlags c) (is_empty path) _ _
      (λ _. record { mode = refl; stopped = refl; row = refl })
      (λ _. record { mode = refl; stopped = refl; row = refl })

-- A download that is private, or has its row, gets no row.
created_lem :
    (path : Option Bytes) (home source : Bytes) (now rowid : ℕ) (c : DownloadContext)
    (d : UserDataStore)
    → (not c.private_mode && c.record_id == 0) ≡ false
    → download_created_destination path home source now rowid c d ≡ (placed path home c, d)
unfolding download_created_destination
created_lem path home source now rowid c d h =
    let s = placed-SameFlags path home c in
    let test : (not (placed path home c).private_mode && (placed path home c).record_id == 0)
        ≡ false =
      rw (s.mode, s.row) h in
    rw test refl

handle-SameFlags :
    (s : Signal) (c : DownloadContext) (d : UserDataStore)
    → (not c.private_mode && c.record_id == 0) ≡ false
    → SameFlags c (handle s c d).0
unfolding handle download_failed download_received
handle-SameFlags (Signal.created path home source now rowid) c d h =
    subst (λ (r : DownloadContext × UserDataStore). SameFlags c r.0)
      (sym (created_lem path home source now rowid c d h)) (placed-SameFlags path home c)
handle-SameFlags (Signal.failed uri message) c d h = record {
  mode = refl;
  stopped = refl;
  row = refl;
}
handle-SameFlags (Signal.received uri n length) c d h = record {
  mode = refl;
  stopped = refl;
  row = refl;
}
handle-SameFlags (Signal.finished uri n length) c d h = record {
  mode = refl;
  stopped = refl;
  row = refl;
}

unless : (b : Bool) (d e : UserDataStore) → b ≡ false → (if b then e else d) ≡ d
unless true d e h = ground (arith, h)
unless false d e h = refl

handle-private_mode :
    (s : Signal) (c : DownloadContext) (d : UserDataStore)
    → c.private_mode ≡ true
    → (handle s c d).1 ≡ d
unfolding handle download_failed download_received download_finished
handle-private_mode (Signal.created path home source now rowid) c d h =
    ap (λ (r : DownloadContext × UserDataStore). r.1)
      (created_lem path home source now rowid c d (ground (arith, h)))
handle-private_mode (Signal.failed uri message) c d h =
    unless (is_recorded c && not c.cancelled) d _ (ground (arith, h))
handle-private_mode (Signal.received uri n length) c d h =
    unless (is_recorded c) d _ (ground (arith, h))
handle-private_mode (Signal.finished uri n length) c d h =
    unless (not c.failed && not c.cancelled && is_recorded c) d _ (ground (arith, h))

-- Nothing of a private download comes into the store, whatever signals it gets.
pub handle_all-private_mode :
    (ss : List Signal) (c : DownloadContext) (d : UserDataStore)
    → c.private_mode ≡ true
    → (handle_all ss c d).1 ≡ d
unfolding handle_all
handle_all-private_mode [] c d h = refl
handle_all-private_mode (s ∷ ss) c d h =
    let flags = handle-SameFlags s c d (ground (arith, h)) in
    handle_all-private_mode ss (handle s c d).0 (handle s c d).1 (flags.mode ∙ h)
    ∙ handle-private_mode s c d h

progress-rows :
    (id received total : ℕ) (rows : List DownloadEntry)
    → map said (change_row id (with_progress received total) rows) ≡ map said rows
unfolding change_row
progress-rows id received total [] = refl
progress-rows id received total (x ∷ xs) = elim (Bool-cases (x.id == id)) [
  | inl same ↦
      rw same (ap (λ (r : List (ℕ × Bytes)). said x ∷ r) (progress-rows id received total xs))
  | inr other ↦
      rw other (ap (λ (r : List (ℕ × Bytes)). said x ∷ r) (progress-rows id received total xs))
]

statuses-progress :
    (id received total : ℕ) (d : UserDataStore)
    → statuses (update_download_progress true id received total d).0 ≡ statuses d
unfolding update_download_progress
statuses-progress id received total d = elim (Bool-cases (d.private_mode || id == 0)) [
  | inl ignored ↦ rw ignored refl
  | inr taken ↦ rw taken (progress-rows id received total d.download_rows)
]

handle-cancelled :
    (s : Signal) (c : DownloadContext) (d : UserDataStore)
    → c.cancelled ≡ true
    → (c.record_id == 0) ≡ false
    → statuses (handle s c d).1 ≡ statuses d
unfolding handle download_failed download_received download_finished
handle-cancelled (Signal.created path home source now rowid) c d h k =
    ap (λ (r : DownloadContext × UserDataStore). statuses r.1)
      (created_lem path home source now rowid c d (ground (arith, k)))
handle-cancelled (Signal.failed uri message) c d h k =
    ap statuses (unless (is_recorded c && not c.cancelled) d _ (ground (arith, h)))
handle-cancelled (Signal.received uri n length) c d h k =
    if_intro (λ e. statuses e ≡ statuses d) (is_recorded c) _ _
      (λ _. statuses-progress c.record_id n (length_or 0 length) d) (λ _. refl)
handle-cancelled (Signal.finished uri n length) c d h k =
    ap statuses (unless (not c.failed && not c.cancelled && is_recorded c) d _ (ground (arith, h)))

-- A download that was cancelled and has its row leaves every row's status as it was, so its own
-- stays `cancelled`, whatever signals it gets.
pub handle_all-cancelled :
    (ss : List Signal) (c : DownloadContext) (d : UserDataStore)
    → c.cancelled ≡ true
    → (c.record_id == 0) ≡ false
    → statuses (handle_all ss c d).1 ≡ statuses d
unfolding handle_all
handle_all-cancelled [] c d h k = refl
handle_all-cancelled (s ∷ ss) c d h k =
    let flags = handle-SameFlags s c d (ground (arith, k)) in
    handle_all-cancelled ss (handle s c d).0 (handle s c d).1 (flags.stopped ∙ h)
      (ap (λ i. i == 0) flags.row ∙ k)
    ∙ handle-cancelled s c d h k

-- The statuses with that of one row set.
abbrev pub with_said : ℕ → Bytes → List (ℕ × Bytes) → List (ℕ × Bytes)
with_said id status [] = []
with_said id status ((i, s) ∷ rows) =
    (if i == id then (i, status) else (i, s)) ∷ with_said id status rows

complete-rows :
    (id : ℕ) (rows : List DownloadEntry)
    → map said (change_row id (with_status complete) rows) ≡ with_said id complete (map said rows)
unfolding change_row until
complete-rows id [] = refl
complete-rows id (x ∷ xs) = elim (Bool-cases (x.id == id)) [
  | inl same ↦ rw (same, complete-rows id xs) refl
  | inr other ↦ rw (other, complete-rows id xs) refl
]

statuses-complete :
    (id : ℕ) (d : UserDataStore)
    → (d.private_mode || id == 0) ≡ false
    → statuses (update_download true id complete d).0 ≡ with_said id complete (statuses d)
unfolding update_download
statuses-complete id d h = rw h (complete-rows id d.download_rows)

progress-mode :
    (id received total : ℕ) (d : UserDataStore)
    → (update_download_progress true id received total d).0.private_mode ≡ d.private_mode
unfolding update_download_progress
progress-mode id received total d = elim (Bool-cases (d.private_mode || id == 0)) [
  | inl ignored ↦ rw ignored refl
  | inr taken ↦ rw taken refl
]

-- A download of a normal session that is finished is said to be complete just if it has its row and
-- neither failed nor was cancelled; no other row's status changes, and else none does.
pub download_finished_lem :
    (received : ℕ) (length : Option ℕ) (c : DownloadContext) (d : UserDataStore)
    → d.private_mode ≡ false
    → statuses (download_finished received length c d) ≡ (
        if not c.failed && not c.cancelled && is_recorded c
        then with_said c.record_id complete (statuses d)
        else statuses d)
unfolding download_finished
download_finished_lem received length c d normal =
    elim (Bool-cases (not c.failed && not c.cancelled && is_recorded c)) [
      | inr kept ↦ rw kept refl
      | inl done ↦
          let total = length_or received length in
          rw done (
            statuses-complete c.record_id _
              (ground (arith, done, normal, progress-mode c.record_id received total d))
            ∙ ap (with_said c.record_id complete) (statuses-progress c.record_id received total d))
    ]
