-- ===== src/Navigation/Policy.antt =====
-- What `NavigationPolicy::resolve` of navigation.cpp may decide.
use vant.Prelude.{
  ◌≡◌, ◌≢◌, refl, ◌⊎◌, inl, inr, Bool, true, false, not, ◌&&◌, ◌||◌, [], ◌++◌, Option, none, some,
  arith, ltb, Bytes, codes, All, length, Option-cases, if_intro,
}
use vant.Strings.{contains, until, is_empty, find_text}
use vant.Navigation.{
  NavigationKind, web, internal, external, rejected, NavigationDecision, NavigationPolicy, is_text,
  trim, lower, encode_query, query_mark, create, resolve_scheme, search, explicit_host_port,
  looks_like_host, resolve_trimmed, resolve,
}
use vant.Navigation.Trim.{IsBlank, trim-append}

abbrev pub scheme : Bytes → Bytes
scheme input = lower (until b':' input)

abbrev pub IsWebScheme : Bytes → Type 0
IsWebScheme s =
    (is_text s (codes "http") || is_text s (codes "https") || is_text s (codes "file")) ≡ true

abbrev pub IsInternalScheme : Bytes → Type 0
IsInternalScheme s = (is_text s (codes "about") || is_text s (codes "vantage")) ≡ true

abbrev pub IsExternalScheme : Bytes → Type 0
IsExternalScheme s = (is_text s (codes "mailto") || is_text s (codes "tel")) ≡ true

-- The search template with the encoded input in the place of its first mark.
abbrev pub Fills : NavigationPolicy → Bytes → Bytes → Type 0
Fills policy input uri =
    (before : Bytes) × (after : Bytes) × (find_text query_mark policy.search_template
      ≡ some (before, after))
    × (uri ≡ before ++ (encode_query input ++ after))

-- What a decision of each kind about a trimmed input may be.
abbrev pub Allows : NavigationPolicy → Bytes → Bytes → Bytes → NavigationKind → Type 0
Allows policy input uri reason web =
    (uri ≡ codes "https://" ++ input)
    ⊎ ((uri ≡ input) × IsWebScheme (scheme input))
    ⊎ Fills policy input uri
Allows policy input uri reason internal = (uri ≡ input) × IsInternalScheme (scheme input)
Allows policy input uri reason external =
    (uri ≡ input) × IsExternalScheme (scheme input) × (reason ≡ codes "requires user confirmation")
Allows policy input uri reason rejected = (uri ≡ []) × (reason ≢ [])

abbrev pub AllowsDecision : NavigationPolicy → Bytes → Option NavigationDecision → Type 0
AllowsDecision policy input none = ⊥
AllowsDecision policy input (some d) = Allows policy input d.uri d.reason d.kind

-- The constructor's check.
abbrev pub HasMark : NavigationPolicy → Type 0
HasMark policy =
    (before : Bytes) × (after : Bytes) × (find_text query_mark policy.search_template
      ≡ some (before, after))

pub create-HasMark :
    (template : Bytes) (policy : NavigationPolicy) → create template ≡ some policy → HasMark policy
unfolding create
create-HasMark template policy e = elim (Option-cases (find_text query_mark template)) [
  | inl miss ↦ ground arith
  | inr ((before, after), found) ↦ (before, after, ground arith)
]

resolve_scheme-Allows :
    (policy : NavigationPolicy) (input : Bytes)
    → AllowsDecision policy input (some (resolve_scheme input))
unfolding resolve_scheme
resolve_scheme-Allows policy input = ground arith

search-Allows :
    (policy : NavigationPolicy) (input : Bytes)
    → HasMark policy
    → AllowsDecision policy input (search policy input)
unfolding search
search-Allows policy input (before, after, found) =
    rw (found, search) (inr (inr (before, after, found, refl)))

resolve_trimmed-Allows :
    (policy : NavigationPolicy) (input : Bytes)
    → HasMark policy
    → AllowsDecision policy input (resolve_trimmed policy input)
unfolding resolve_trimmed
resolve_trimmed-Allows policy input h =
    let P = AllowsDecision policy input in
    if_intro P (is_empty input) _ _ (λ _. (refl, λ e. cc))
      λ _.
        if_intro P (contains 0 input || ltb 8192 (length input)) _ _ (λ _. (refl, λ e. cc))
          λ _.
            if_intro P (not (contains b' ' input) && explicit_host_port input) _ _ (λ _. inl refl)
              λ _.
                if_intro P (contains b':' input) _ _ (λ _. resolve_scheme-Allows policy input)
                  λ _.
                    if_intro P (looks_like_host input) _ _ (λ _. inl refl)
                      λ _. search-Allows policy input h

-- `resolve` always decides, for a policy that the constructor made, and only these ways: a web page
-- is the trimmed input behind "https://", or the input under an http, https or file scheme, so that an
-- address of a file is a web page to the policy, or the search template with the input encoded in it;
-- an internal page is an about or vantage address; an
-- external one a mailto or tel address that asks for confirmation; a refusal gives no address.
pub resolve-Allows :
    (policy : NavigationPolicy) (raw : Bytes)
    → HasMark policy
    → AllowsDecision policy (trim raw) (resolve policy raw)
unfolding resolve
resolve-Allows policy raw h = resolve_trimmed-Allows policy (trim raw) h

abbrev pub IsRefused : Option NavigationDecision → Type 0
IsRefused none = ⊥
IsRefused (some d) = (d.kind ≡ rejected) × (d.uri ≡ [])

-- A scheme that is in none of the lists.
abbrev pub is_listed : Bytes → Bool
is_listed s =
    is_text s (codes "http")
    || is_text s (codes "https")
    || is_text s (codes "file")
    || is_text s (codes "about")
    || is_text s (codes "vantage")
    || is_text s (codes "mailto")
    || is_text s (codes "tel")

resolve_scheme_unlisted :
    (input : Bytes) → is_listed (scheme input) ≡ false → IsRefused (some (resolve_scheme input))
unfolding resolve_scheme
resolve_scheme_unlisted input h = ground arith

-- An input with a colon is refused, with no address, if the text before the colon is no host with a
-- port and in lower case none of the seven listed schemes: `javascript:` and `data:` addresses are
-- never opened, and never become a search.
pub resolve_unlisted :
    (policy : NavigationPolicy) (raw : Bytes)
    → contains b':' (trim raw) ≡ true
    → explicit_host_port (trim raw) ≡ false
    → is_listed (scheme (trim raw)) ≡ false
    → IsRefused (resolve policy raw)
unfolding resolve resolve_trimmed
resolve_unlisted policy raw colon host listed =
    let input = trim raw in
    let P = IsRefused in
    if_intro P (is_empty input) _ _ (λ _. (refl, refl))
      λ _.
        if_intro P (contains 0 input || ltb 8192 (length input)) _ _ (λ _. (refl, refl))
          λ _.
            if_intro P (not (contains b' ' input) && explicit_host_port input) _ _
              (λ e. ground arith)
              λ _.
                if_intro P (contains b':' input) _ _ (λ _. resolve_scheme_unlisted input listed)
                  λ e. cc

-- Blanks, tabs and line ends round the input make no difference.
pub resolve-append :
    (policy : NavigationPolicy) (pre raw post : Bytes)
    → All IsBlank pre
    → All IsBlank post
    → resolve policy (pre ++ (raw ++ post)) ≡ resolve policy raw
unfolding resolve
resolve-append policy pre raw post h k = rw (trim-append pre raw post h k)
