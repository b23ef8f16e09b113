-- ===== src/Pages/Laws.antt =====
-- src/native_app.cpp: what the signals of a load do to the page, in any order.
use vant.Prelude.{
  ℕ, ◌+◌, ◌≤◌, ◌≡◌, refl, ap, none, some, inl, inr, Bool, true, false, not, ◌&&◌, List, [], ◌∷◌,
  Option, arith, Bytes, Bool-cases, if_intro, length, length-append,
}
use vant.Navigation.{NavigationKind, NavigationDecision, NavigationPolicy, resolve}
use vant.Strings.{is_empty}
use vant.Pages.{
  policy_decided, decided_or_not, decide_address, LoadEvent, Page, is_web, is_blank_page, recovered,
  visited, settled, load_changed, announced,
}

-- A signal of a load: the event, the view's address and title, the time and the number that SQLite
-- gives a row.
pub record Load : Type 0 where
  pub event : LoadEvent
  pub uri : Option Bytes
  pub title : Option Bytes
  pub now : ℕ
  pub rowid : ℕ

-- What the view asks or tells: the address that it is about to load, or a signal of a load.
pub data PageSignal : Type 0 where
  asked : Bytes → PageSignal
  told : Load → PageSignal

abbrev pub signal : NavigationPolicy → PageSignal → Page → Page
signal policy (asked uri) p = (decide_address policy uri p).0
signal policy (told l) p = load_changed l.event l.uri l.title l.now l.rowid p

unfoldable pub load_all : NavigationPolicy → List PageSignal → Page → Page
load_all policy [] p = p
load_all policy (l ∷ ls) p = load_all policy ls (signal policy l p)

-- The pages of the Web that were loaded to their end.
abbrev is_arrival : LoadEvent → Option Bytes → Bool
is_arrival LoadEvent.started uri = false
is_arrival LoadEvent.redirected uri = false
is_arrival LoadEvent.committed uri = false
is_arrival LoadEvent.finished uri = is_web uri

abbrev counted : Bool → ℕ
counted true = 1
counted false = 0

-- The signals after which a recovery may follow again: a page of the Web that was loaded to its end,
-- and an address that the view asks for.
abbrev renews : PageSignal → ℕ
renews (asked uri) = 1
renews (told l) = counted (is_arrival l.event l.uri)

unfoldable pub renewals : List PageSignal → ℕ
renewals [] = 0
renewals (l ∷ ls) = renews l + renewals ls

-- The recoveries that were made, with the one that may still follow.
abbrev spent : Page → ℕ
spent p = length p.loads + counted (not p.tab.recovering_blank_navigation)

recovered-spent : (uri : Option Bytes) (p : Page) → spent (recovered uri p) ≤ spent p
unfolding recovered
recovered-spent uri p =
    elim (Bool-cases (
      is_blank_page uri
      && not (is_empty p.tab.pending_web_uri)
      && not p.tab.recovering_blank_navigation)) [
        | inr kept ↦ rw kept (omega arith)
        | inl blank ↦
            let free : p.tab.recovering_blank_navigation ≡ false = ground (arith, blank) in
            let more = length-append p.loads (p.tab.pending_web_uri ∷ []) in
            let all : counted (not p.tab.recovering_blank_navigation) ≡ 1 = rw free refl in
            rw blank (omega (arith, more, all))
      ]

visited-spent :
    (uri title : Option Bytes) (now rowid : ℕ) (p : Page)
    → spent (visited uri title now rowid p) ≡ spent p
unfolding visited
visited-spent uri title now rowid p =
    if_intro (λ (q : Page). spent q ≡ spent p)
      (not p.private_mode && is_empty p.tab.internal_uri && is_web uri) _ _ (λ _. refl) (λ _. refl)

settled-spent :
    (uri : Option Bytes) (p : Page) → spent (settled uri p) ≤ spent p + counted (is_web uri)
unfolding settled
settled-spent uri p = elim (Bool-cases (is_web uri)) [
  | inl web ↦ rw web (omega arith)
  | inr other ↦ rw other (omega arith)
]

load_changed-spent :
    (event : LoadEvent) (uri title : Option Bytes) (now rowid : ℕ) (p : Page)
    → spent (load_changed event uri title now rowid p) ≤ spent p + counted (is_arrival event uri)
unfolding load_changed
load_changed-spent LoadEvent.started uri title now rowid p = omega arith
load_changed-spent LoadEvent.redirected uri title now rowid p = omega arith
load_changed-spent LoadEvent.committed uri title now rowid p =
    omega (arith, recovered-spent uri (announced LoadEvent.committed p))
load_changed-spent LoadEvent.finished uri title now rowid p =
    let q = announced LoadEvent.finished p in
    omega (
      arith,
      settled-spent uri (visited uri title now rowid q),
      visited-spent uri title now rowid q,
    )

policy_decided-loads :
    (k : NavigationKind) (d : NavigationDecision) (p : Page)
    → (policy_decided k d p).0.loads ≡ p.loads
policy_decided-loads NavigationKind.web d p = refl
policy_decided-loads NavigationKind.internal d p = refl
policy_decided-loads NavigationKind.external d p = refl
policy_decided-loads NavigationKind.rejected d p = refl

decided_or_not-loads :
    (o : Option NavigationDecision) (p : Page) → (decided_or_not o p).0.loads ≡ p.loads
decided_or_not-loads none p = refl
decided_or_not-loads (some d) p = policy_decided-loads d.kind d p

decide_address-loads :
    (policy : NavigationPolicy) (uri : Bytes) (p : Page)
    → (decide_address policy uri p).0.loads ≡ p.loads
unfolding decide_address
decide_address-loads policy uri p = decided_or_not-loads (resolve policy uri) p

counted_le : (b : Bool) → counted b ≤ 1
counted_le true = omega arith
counted_le false = omega arith

signal-spent :
    (policy : NavigationPolicy) (l : PageSignal) (p : Page)
    → spent (signal policy l p) ≤ spent p + renews l
signal-spent policy (told l) p = load_changed-spent l.event l.uri l.title l.now l.rowid p
signal-spent policy (asked uri) p =
    let q = (decide_address policy uri p).0 in
    let same = ap (λ (t : List Bytes). length t) (decide_address-loads policy uri p) in
    omega (arith, same, counted_le (not q.tab.recovering_blank_navigation))

load_all-spent :
    (policy : NavigationPolicy) (ls : List PageSignal) (p : Page)
    → spent (load_all policy ls p) ≤ spent p + renewals ls
unfolding load_all renewals
load_all-spent policy [] p = omega arith
load_all-spent policy (l ∷ ls) p =
    omega (arith, load_all-spent policy ls (signal policy l p), signal-spent policy l p)

-- A blank page is recovered from at most once for each page of the Web that is loaded to its end, at
-- most once for each address that the view asks to load, and once before: whatever order these come
-- in, the loads that the recoveries tell are no more than that.
pub load_all-bounded :
    (policy : NavigationPolicy) (ls : List PageSignal) (p : Page)
    → length (load_all policy ls p).loads ≤ length p.loads + renewals ls + 1
load_all-bounded policy ls p =
    omega (arith, load_all-spent policy ls p, counted_le (not p.tab.recovering_blank_navigation))
