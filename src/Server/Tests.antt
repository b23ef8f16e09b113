-- ===== src/Server/Tests.antt =====
-- The agent server of src/agent_rpc.cpp at concrete calls and clients.
use vant.Prelude.{
  ◌≡◌, refl, true, false, [], ◌∷◌, ◌++◌, Option, some, arith, Bytes, codes, length, ◌≤◌,
}
use vant.Json.{json_string, json_escape, escape_byte}
use vant.Rpc.{AgentRequest, request_json}
use vant.Rpc.Values.{Members, object, member, no_members, word, print, IsSound}
use vant.Rpc.RoundTrip.{asked}
use vant.Server.{line_limit, Place, Calls, start, serve}
use vant.Server.Ownership.{start-raced}
use vant.Server.Answers.{serve-request_json}

abbrev works : Calls
works = record {
  probes = true;
  short = true;
  opens = true;
  closes_on_exec = true;
  binds = true;
  restricts = true;
  listens = true;
}

start-raced_example :
    start works (λ p. Place.other) (record { running = false; place = Place.absent })
    ≡ (record { running = false; place = Place.absent }, false)
start-raced_example = start-raced works Place.absent refl refl

-- A handler that knows one method.
abbrev echo : AgentRequest → Option Bytes
echo r = some (json_string r.method)

abbrev tab_seven : Members
tab_seven = member (codes "tab_id") (word (codes "7")) no_members

tab_seven-IsSound : IsSound (object tab_seven)
unfolding IsSound
tab_seven-IsSound = ((refl, tt), tt)

short_request : length (asked (codes "page.snapshot") (print (object tab_seven)) []) ≤ line_limit
unfolding print json_string json_escape escape_byte
short_request = omega arith

serve-request_json_example :
    serve echo (request_json (codes "cli") (codes "page.snapshot") (print (object tab_seven)))
    ≡ json_string (codes "page.snapshot") ++ b'\n' ∷ []
serve-request_json_example =
    serve-request_json echo (codes "page.snapshot") tab_seven tab_seven-IsSound short_request
