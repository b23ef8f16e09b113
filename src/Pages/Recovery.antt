-- ===== src/Pages/Recovery.antt =====
-- src/native_app.cpp: the recovery from a blank page, whose own load asks the policy of the tab.
use vant.Prelude.{
  ℕ, suc, zero, ◌≡◌, ◌∙◌, refl, false, List, [], ◌∷◌, ◌++◌, none, some, arith, Bytes, codes,
  bytes_eq, append_assoc, append-nil, ap, if_intro, sym,
}
use vant.Navigation.{NavigationKind, NavigationDecision, NavigationPolicy, resolve}
use vant.Strings.{is_empty}
use vant.Pages.{LoadEvent, Page, recovered, load_changed, decide_address, policy_decided}
use vant.Windows.{TabState}
use vant.Pages.Laws.{PageSignal, asked, told, load_all}

-- A committed blank page, and the address that its recovery asks for.
abbrev pub round : ℕ → Bytes → List PageSignal
round now uri =
    told (record {
      event = LoadEvent.committed;
      uri = some (codes "about:blank");
      title = none;
      now = now;
      rowid = 0;
    })
    ∷ asked uri
    ∷ []

abbrev pub rounds : ℕ → Bytes → List PageSignal
rounds zero uri = []
rounds (suc n) uri = round n uri ++ rounds n uri

abbrev pub repeated : ℕ → Bytes → List Bytes
repeated zero uri = []
repeated (suc n) uri = uri ∷ repeated n uri

-- A page that waits for the address.
pub record Waits (uri : Bytes) (p : Page) : Type 0 where
  pub pending : p.tab.pending_web_uri ≡ uri
  pub is_free : p.tab.recovering_blank_navigation ≡ false
  pub is_outside : bytes_eq p.tab.internal_uri (codes "vantage:source") ≡ false

abbrev blank_committed : ℕ → Page → Page
blank_committed now p = load_changed LoadEvent.committed (some (codes "about:blank")) none now 0 p

recovered-loads :
    (now : ℕ) (uri : Bytes) (p : Page)
    → is_empty uri ≡ false
    → Waits uri p
    → ((blank_committed now p).loads ≡ p.loads ++ uri ∷ [])
      × ((blank_committed now p).tab.internal_uri ≡ p.tab.internal_uri)
unfolding load_changed recovered bytes_eq
recovered-loads now uri p some_uri w = ground (arith, w.pending, w.is_free, some_uri)

policy_decided-Waits :
    (k : NavigationKind) (d : NavigationDecision) (p : Page)
    → k ≡ NavigationKind.web
    → bytes_eq p.tab.internal_uri (codes "vantage:source") ≡ false
    → Waits d.uri (policy_decided k d p).0 × ((policy_decided k d p).0.loads ≡ p.loads)
unfolding bytes_eq
policy_decided-Waits NavigationKind.web d p k outside =
    if_intro
      (λ (t : TabState).
        Waits d.uri (record p { tab = t }) × ((record p { tab = t }).loads ≡ p.loads))
      (bytes_eq p.tab.internal_uri (codes "vantage:source")) _ _ (λ h. ground (arith, h, outside))
      (λ _. (record { pending = refl; is_free = refl; is_outside = refl }, refl))
policy_decided-Waits NavigationKind.internal d p k outside = absurd (ground (arith, k))
policy_decided-Waits NavigationKind.external d p k outside = absurd (ground (arith, k))
policy_decided-Waits NavigationKind.rejected d p k outside = absurd (ground (arith, k))

asked-Waits :
    (policy : NavigationPolicy) (d : NavigationDecision) (p : Page)
    → resolve policy d.uri ≡ some d
    → d.kind ≡ NavigationKind.web
    → bytes_eq p.tab.internal_uri (codes "vantage:source") ≡ false
    → let q = (decide_address policy d.uri p).0 in Waits d.uri q × (q.loads ≡ p.loads)
unfolding decide_address
asked-Waits policy d p e k outside = rw e (policy_decided-Waits d.kind d p k outside)

round-Waits :
    (policy : NavigationPolicy) (now : ℕ) (d : NavigationDecision) (p : Page)
    → is_empty d.uri ≡ false
    → resolve policy d.uri ≡ some d
    → d.kind ≡ NavigationKind.web
    → Waits d.uri p
    → let q = (decide_address policy d.uri (blank_committed now p)).0 in
      Waits d.uri q × (q.loads ≡ p.loads ++ d.uri ∷ [])
round-Waits policy now d p some_uri e k w =
    let (loaded, inside) = recovered-loads now d.uri p some_uri w in
    let (waits, same) =
      asked-Waits policy d (blank_committed now p) e k
        (ap (λ t. bytes_eq t (codes "vantage:source")) inside ∙ w.is_outside) in
    (waits, same ∙ loaded)

-- The recovery of an address of the Web, one that the policy takes as it stands, does not end by
-- itself: in a tab that waits for it and does not show a page's source, each of n blank pages, each
-- followed by the question that the load of the recovery asks, loads the address again, although no
-- page was loaded to its end.
pub load_all-loops :
    (policy : NavigationPolicy) (n : ℕ) (d : NavigationDecision) (p : Page)
    → is_empty d.uri ≡ false
    → resolve policy d.uri ≡ some d
    → d.kind ≡ NavigationKind.web
    → Waits d.uri p
    → (load_all policy (rounds n d.uri) p).loads ≡ p.loads ++ repeated n d.uri
unfolding load_all
load_all-loops policy zero d p some_uri e k w = sym (append-nil p.loads)
load_all-loops policy (suc n) d p some_uri e k w =
    let (waits, loaded) = round-Waits policy n d p some_uri e k w in
    let q = (decide_address policy d.uri (blank_committed n p)).0 in
    load_all-loops policy n d q some_uri e k waits
    ∙ ap (λ t. t ++ repeated n d.uri) loaded
    ∙ append_assoc p.loads (d.uri ∷ []) (repeated n d.uri)
