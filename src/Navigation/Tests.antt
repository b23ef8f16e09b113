-- ===== src/Navigation/Tests.antt =====
-- Runs of the address resolution, and its theorems at concrete inputs.
use vant.Prelude.{◌≡◌, refl, [], some, arith, codes, bytes_eq}
use vant.Strings.{to_lower, is_empty, contains, until, starts_with, find_text}
use vant.Navigation.{
  NavigationPolicy, resolve, resolve_trimmed, resolve_scheme, search, explicit_host_port,
  looks_like_host, trim, lower, encode_query, decide, web, rejected,
}
use vant.Navigation.Query.{decode_query, decode-encode_query}
use vant.Navigation.Policy.{AllowsDecision, HasMark, resolve-Allows}

abbrev brave : NavigationPolicy
brave = record { search_template = codes "https://s.org/?q={query}" }

resolve-search :
    resolve brave (codes " a b? ") ≡ some (decide web (codes "https://s.org/?q=a+b%3F") [])
unfolding resolve resolve_trimmed trim is_empty contains looks_like_host starts_with search
    find_text encode_query bytes_eq explicit_host_port until
resolve-search = refl

resolve-script :
    resolve brave (codes "JavaScript:alert(1)")
    ≡ some (decide rejected [] (codes "scheme is not allowed"))
unfolding resolve resolve_trimmed trim is_empty contains explicit_host_port until resolve_scheme
    lower to_lower bytes_eq
resolve-script = refl

brave-HasMark : HasMark brave
unfolding find_text starts_with
brave-HasMark = (codes "https://s.org/?q=", [], refl)

resolve-Allows_example :
    AllowsDecision brave (trim (codes " nift.dev")) (resolve brave (codes " nift.dev"))
resolve-Allows_example = resolve-Allows brave (codes " nift.dev") brave-HasMark

decode-encode_query_example : decode_query (encode_query (codes "a&b #")) ≡ codes "a&b #"
decode-encode_query_example = decode-encode_query (codes "a&b #") (omega arith)
