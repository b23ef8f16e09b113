-- ===== src/Client/Commands.antt =====
-- src/agent_rpc.cpp: commands of `vant agent` as the server's handler sees them.
use vant.Prelude.{
  ◌≤◌, ◌≡◌, ◌∙◌, refl, ap, false, [], ◌∷◌, ◌++◌, append-nil, Option, some, Bytes, codes, bytes_eq,
  length,
}
use vant.Strings.{find_text, starts_with, cut}
use vant.Json.{json_string, json_escape, escape_byte}
use vant.Rpc.{AgentRequest, field, locate, value_at, or_else, json_param_string, request_json}
use vant.Rpc.Values.{Members, object, member, no_members, text, print, IsSound}
use vant.Rpc.RoundTrip.{asked, read_value-literal}
use vant.Server.{line_limit, in_time, serve}
use vant.Server.Answers.{serve-request_json}
use vant.Client.{Exchange, shown, plan, run_agent_cli}

-- The exchange with a server that has this handler.
abbrev pub over : (AgentRequest → Option Bytes) → Exchange
over handler method params = some (serve handler (request_json (codes "cli") method params))

abbrev pub one_text : Bytes → Bytes → Members
one_text key s = member key (text s) no_members

-- The request of the command line with one text among its parameters.
abbrev pub request_with : Bytes → Bytes → Bytes → AgentRequest
request_with method key s = record {
  id = codes "cli";
  method = method;
  params_json = print (object (one_text key s));
}

abbrev pub Fits : Bytes → Bytes → Bytes → Type 0
Fits method key s = length (asked method (print (object (one_text key s))) []) ≤ line_limit

exchanged :
    (handler : AgentRequest → Option Bytes) (method key s : Bytes)
    → Fits method key s
    → over handler method (print (object (one_text key s)))
      ≡ some
          (in_time (request_with method key s) (handler (request_with method key s)) ++ b'\n' ∷ [])
unfolding IsSound
exchanged handler method key s short =
    ap (λ (t : Bytes). some t) (serve-request_json handler method (one_text key s) (tt, tt) short)

locate-uri :
    (s : Bytes)
    → locate (print (object (one_text (codes "uri") s))) (codes "uri")
      ≡ some (json_string s ++ b'}' ∷ [])
unfolding locate find_text starts_with cut print json_string json_escape escape_byte
locate-uri s = rw (append-nil (json_escape s ++ b'"' ∷ [])) refl

uri-read :
    (s : Bytes) → json_param_string (print (object (one_text (codes "uri") s))) (codes "uri") ≡ s
unfolding json_param_string field
uri-read s =
    ap (λ o. or_else [] (value_at o)) (locate-uri s) ∙ ap (or_else []) (read_value-literal s _)

-- `vant agent open URI` with a server whose handler replies as `handler` does: the handler is asked
-- for `browser.navigate` and reads exactly the URI of the command line in the parameters, and what it
-- answers is shown, where the request fits the server's limit.
pub open-run_agent_cli :
    (handler : AgentRequest → Option Bytes) (files : Bytes → Option Bytes) (stdin uri : Bytes)
    → Fits (codes "browser.navigate") (codes "uri") uri
    → let r = request_with (codes "browser.navigate") (codes "uri") uri in
      (json_param_string r.params_json (codes "uri") ≡ uri)
      × (run_agent_cli files stdin [] (over handler) (codes "open" ∷ uri ∷ [])
          ≡ shown false (some (in_time r (handler r) ++ b'\n' ∷ [])))
unfolding run_agent_cli plan bytes_eq print json_string json_escape escape_byte
open-run_agent_cli handler files stdin uri short = (
  uri-read uri,
  ap (shown false) (exchanged handler (codes "browser.navigate") (codes "uri") uri short),
)
