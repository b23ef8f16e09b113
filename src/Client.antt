-- ===== src/Client.antt =====
-- src/agent_rpc.cpp, `run_agent_cli`: the command `vant agent`. The exchange with the server is a
-- parameter, as are the files and the standard input.
pub mod Commands
pub mod Polls
pub mod Watch
pub mod Tests
use vant.Prelude.{
  ℕ, ◌+◌, ◌-◌, ◌%◌, ◌^◌, Bool, true, false, not, ◌&&◌, ◌||◌, List, [], ◌∷◌, ◌++◌, Option, none,
  some, ltb, ◌==◌, if◌then◌else◌, Bytes, codes, bytes_eq, length, take, drop,
}
use vant.Decimal.{to_string}
use vant.Json.{json_string}
use vant.Strings.{is_empty, find_text, ends_with_byte, starts_with}
use vant.Rpc.{field, skip_spaces, leading_number}

-- A method and its parameters are sent, and the reply comes back; `none` is no reply.
abbrev pub Exchange : Type 0
Exchange = Bytes → Bytes → Option Bytes

-- What is printed, on the standard error and the standard output, and the exit status.
pub record Ended : Type 0 where
  pub err : Bytes
  pub out : Bytes
  pub status : ℕ

abbrev usage : Bytes
usage =
    codes
      "usage: vant agent [--json] <status|version|capabilities|tabs|open|snapshot|click|fill|fetch|diagnostics|events|watch|call|js> ...\n"

abbrev help : Bytes
help =
    codes
      "vant agent [--json] status|version|capabilities|tabs|open URI [TAB]|snapshot [TAB]|click REF [TAB]|fill REF VALUE [TAB]|fetch URL [OPTIONS_JSON]|diagnostics [TAB]|events|watch|call METHOD [JSON]|js [--file FILE|-|SCRIPT]\n"

-- What the arguments ask for.
pub data Plan : Type 0 where
  refuse : Bytes → Plan
  ask : Bytes → Bytes → Plan

abbrev object_of : Bytes → Bytes
object_of inner = codes "{" ++ (inner ++ codes "}")

-- `,"tab_id":` with the argument as it stands, where there is one.
abbrev tab_behind : List Bytes → Bytes
tab_behind [] = []
tab_behind (tab ∷ more) = codes ",\"tab_id\":" ++ tab

abbrev tab_alone : List Bytes → Bytes
tab_alone [] = codes "{}"
tab_alone (tab ∷ more) = object_of (codes "\"tab_id\":" ++ tab)

abbrev open_plan : List Bytes → Plan
open_plan [] = refuse (codes "vant agent open: URI required\n")
open_plan (uri ∷ more) =
    ask (codes "browser.navigate")
      (object_of (codes "\"uri\":" ++ (json_string uri ++ tab_behind more)))

abbrev click_plan : List Bytes → Plan
click_plan [] = refuse (codes "vant agent click: element ref required\n")
click_plan (ref ∷ more) = ask (codes "page.interact") (
    object_of
      (codes "\"ref\":" ++ (json_string ref ++ (codes ",\"action\":\"click\"" ++ tab_behind more))))

abbrev fill_plan : List Bytes → Plan
fill_plan [] = refuse (codes "vant agent fill: element ref and value required\n")
fill_plan (ref ∷ []) = refuse (codes "vant agent fill: element ref and value required\n")
fill_plan (ref ∷ value ∷ more) = ask (codes "page.interact") (
    object_of (
      codes "\"ref\":"
      ++ (json_string ref
          ++ (codes ",\"action\":\"fill\",\"value\":" ++ (json_string value ++ tab_behind more)))))

-- `{` in front and `}` at the end, of two bytes at least.
abbrev is_object : Bytes → Bool
is_object options =
    not (ltb (length options) 2) && starts_with (codes "{") options && ends_with_byte b'}' options

abbrev inner_of : Bytes → Bytes
inner_of options = take (length options - 2) (drop 1 options)

abbrev comma_before : Bytes → Bytes
comma_before inner = if is_empty inner then [] else b',' ∷ inner

abbrev fetch_with : Bytes → Bytes → Plan
fetch_with url options =
    if not (is_object options)
    then refuse (codes "vant agent fetch: OPTIONS_JSON must be a JSON object\n")
    else ask (codes "net.fetch")
        (object_of (codes "\"url\":" ++ (json_string url ++ comma_before (inner_of options))))

abbrev fetch_plan : List Bytes → Plan
fetch_plan [] = refuse (codes "vant agent fetch: URL required\n")
fetch_plan (url ∷ []) = fetch_with url (codes "{}")
fetch_plan (url ∷ options ∷ more) = fetch_with url options

abbrev script_plan : Bytes → Plan
script_plan script =
    ask (codes "page.javascript") (object_of (codes "\"script\":" ++ json_string script))

abbrev file_plan : Option Bytes → Plan
file_plan none = refuse (codes "vant agent js: cannot read script file\n")
file_plan (some script) = script_plan script

abbrev js_argument : Bytes → Bytes → Plan
js_argument stdin script = script_plan (if bytes_eq script (codes "-") then stdin else script)

abbrev js_plan : (Bytes → Option Bytes) → Bytes → List Bytes → Plan
js_plan files stdin [] = script_plan stdin
js_plan files stdin (script ∷ []) = js_argument stdin script
js_plan files stdin (first ∷ file ∷ more) =
    if bytes_eq first (codes "--file") then file_plan (files file) else js_argument stdin first

abbrev call_plan : List Bytes → Plan
call_plan [] = refuse (codes "vant agent call: method required\n")
call_plan (method ∷ []) = ask method (codes "{}")
call_plan (method ∷ params ∷ more) = ask method params

-- The command's name and what stands behind it.
unfoldable pub plan : (Bytes → Option Bytes) → Bytes → Bytes → List Bytes → Plan
plan files stdin command rest =
    if bytes_eq command (codes "events")
    then ask (codes "events.since") (codes "{}")
    else if bytes_eq command (codes "tabs")
    then ask (codes "browser.tabs") (codes "{}")
    else if bytes_eq command (codes "open")
    then open_plan rest
    else if bytes_eq command (codes "snapshot")
    then ask (codes "page.snapshot") (tab_alone rest)
    else if bytes_eq command (codes "click")
    then click_plan rest
    else if bytes_eq command (codes "fill")
    then fill_plan rest
    else if bytes_eq command (codes "fetch")
    then fetch_plan rest
    else if bytes_eq command (codes "diagnostics")
    then ask (codes "page.diagnostics") (tab_alone rest)
    else if bytes_eq command (codes "js")
    then js_plan files stdin rest
    else if bytes_eq command (codes "call")
    then call_plan rest
    else ask command (codes "{}")

abbrev is_found : Option (Bytes × Bytes) → Bool
is_found none = false
is_found (some p) = true

abbrev pub says_ok : Bytes → Bool
says_ok reply = is_found (find_text (codes "\"ok\":true") reply)

abbrev field_or : Bytes → Option Bytes → Bytes
field_or reply none = reply
field_or reply (some result) = result ++ b'\n' ∷ []

abbrev pub shown : Bool → Option Bytes → Ended
shown json_output none = record { err = []; out = []; status = 1 }
shown json_output (some reply) = record {
  err = [];
  out =
      if json_output || not (says_ok reply)
      then reply
      else field_or reply (field reply (codes "result"));
  status = if says_ok reply then 0 else 1;
}

abbrev pub carried_out : Bool → Exchange → Plan → Ended
carried_out json_output exchange (refuse message) = record { err = message; out = []; status = 2 }
carried_out json_output exchange (ask method params) = shown json_output (exchange method params)

-- `std::stoull`: a minus sign wraps around, and the exceptions are `none`.
abbrev in_range : Bool → Option ℕ → Option ℕ
in_range negative none = none
in_range negative (some n) =
    if not (ltb n (2 ^ 64)) then none else some (if negative then (2 ^ 64 - n) % 2 ^ 64 else n)

abbrev signed : Bytes → Option ℕ
signed [] = none
signed (c ∷ s) =
    if c == b'-'
    then in_range true (leading_number none s)
    else in_range false (leading_number none (if c == b'+' then s else c ∷ s))

unfoldable pub stoull : Bytes → Option ℕ
stoull text = signed (skip_spaces text)

abbrev number_or : ℕ → Option ℕ → ℕ
number_or other none = other
number_or other (some n) = n

abbrev latest_of : ℕ → Option Bytes → ℕ
latest_of after none = after
latest_of after (some text) = number_or after (stoull text)

-- How a round of `watch` ends: with the exit status 1, or in the next round behind another event.
pub data Round : Type 0 where
  stops : Bytes → Round
  goes_on : Bytes → ℕ → Round

abbrev result_shown : ℕ → Option Bytes → Round
result_shown after none = goes_on [] after
result_shown after (some result) =
    goes_on (result ++ b'\n' ∷ []) (latest_of after (field result (codes "latest")))

abbrev round_of : ℕ → Option Bytes → Round
round_of after none = stops []
round_of after (some reply) =
    if not (says_ok reply) then stops reply else result_shown after (field reply (codes "result"))

unfoldable pub watch_round : Exchange → ℕ → Round
unfolding stoull
watch_round exchange after = round_of after (
    exchange (codes "events.since")
      (codes "{\"after\":" ++ (to_string after ++ codes ",\"limit\":256}")))

-- The rounds of `watch`, each with the exchange as it then is; it ends only by an error.
unfoldable pub watch : List Exchange → ℕ → Ended
watch [] after = record { err = []; out = []; status = 0 }
watch (exchange ∷ more) after = elim (watch_round exchange after) [
  | stops printed ↦ record { err = []; out = printed; status = 1 }
  | goes_on printed latest ↦
      let rest = watch more latest in
      record { err = rest.err; out = printed ++ rest.out; status = rest.status }
]

abbrev commanded :
    Bool → (Bytes → Option Bytes) → Bytes → List Exchange → Exchange → List Bytes → Ended
commanded json_output files stdin rounds exchange [] = record { err = []; out = []; status = 2 }
commanded json_output files stdin rounds exchange (command ∷ rest) =
    if bytes_eq command (codes "--help") || bytes_eq command (codes "help")
    then record { err = []; out = help; status = 0 }
    else if bytes_eq command (codes "watch")
    then watch rounds 0
    else carried_out json_output exchange (plan files stdin command rest)

-- `rounds` are the exchanges of `watch`, `exchange` is that of the other commands.
unfoldable pub run_agent_cli :
    (Bytes → Option Bytes) → Bytes → List Exchange → Exchange → List Bytes → Ended
unfolding plan watch
run_agent_cli files stdin rounds exchange [] = record { err = usage; out = []; status = 2 }
run_agent_cli files stdin rounds exchange (first ∷ rest) =
    if bytes_eq first (codes "--json")
    then commanded true files stdin rounds exchange rest
    else commanded false files stdin rounds exchange (first ∷ rest)
