-- ===== src/Server/Answers.antt =====
-- src/agent_rpc.cpp: what a client of the agent socket is answered.
use vant.Prelude.{
  ℕ, suc, zero, ◌≤◌, ◌≡◌, ◌∙◌, refl, ap, [], ◌∷◌, ◌++◌, Option, arith, Bytes, codes, length, All,
  All-append, append_assoc,
}
use vant.Json.{json_string}
use vant.Json.RoundTrip.{IsPrinted, json_string-IsPrinted}
use vant.Rpc.{AgentRequest, request_json}
use vant.Rpc.Values.{Members, object, print, IsSound}
use vant.Rpc.Printed.{print-IsPrinted}
use vant.Rpc.RoundTrip.{asked, parse_request-asked}
use vant.Server.{
  Received, line, receive, line_limit, in_time, answer_parsed, answer_received, serve,
}

receive-line :
    (room : ℕ) (s rest : Bytes)
    → All IsPrinted s
    → length s ≤ room
    → receive room (s ++ b'\n' ∷ rest) ≡ line s
unfolding receive
receive-line zero [] rest h k = refl
receive-line (suc room) [] rest h k = refl
receive-line zero (c ∷ s) rest h k = ground (arith, k)
receive-line (suc room) (c ∷ s) rest h k =
    ground (arith, h.0, receive-line room s rest h.1 (omega (arith, k)))

request_json-line :
    (method params : Bytes)
    → request_json (codes "cli") method params ≡ asked method params [] ++ b'\n' ∷ []
unfolding request_json
request_json-line method params =
    rw
      (
        append_assoc (json_string (codes "cli")),
        append_assoc (json_string method),
        append_assoc params,
      )
      refl

-- All that the command line sends but the line end.
asked-IsPrinted :
    (method params : Bytes) → All IsPrinted params → All IsPrinted (asked method params [])
asked-IsPrinted method params h =
    All-append IsPrinted (codes "{\"version\":1,\"id\":") _ (ground arith) (
      All-append IsPrinted (json_string (codes "cli")) _ (json_string-IsPrinted (codes "cli")) (
        All-append IsPrinted (codes ",\"method\":") _ (ground arith) (
          All-append IsPrinted (json_string method) _ (json_string-IsPrinted method) (
            All-append IsPrinted (codes ",\"params\":") _ (ground arith)
              (All-append IsPrinted params (b'}' ∷ []) h (omega arith))))))

-- A request of the command line that fits the limit, with an object of JSON for its parameters, is
-- answered with what the handler replies to that method and those parameters, or with the timeout.
pub serve-request_json :
    (handler : AgentRequest → Option Bytes) (method : Bytes) (members : Members)
    → IsSound (object members)
    → length (asked method (print (object members)) []) ≤ line_limit
    → let r : AgentRequest = record {
      id = codes "cli";
      method = method;
      params_json = print (object members);
    } in
      serve handler (request_json (codes "cli") method (print (object members)))
      ≡ in_time r (handler r) ++ b'\n' ∷ []
unfolding serve
serve-request_json handler method members h fits =
    let params = print (object members) in
    let got =
      receive-line line_limit (asked method params []) []
        (asked-IsPrinted method params (print-IsPrinted (object members) h)) fits in
    ap (λ (t : Bytes). answer_received handler (receive line_limit t) ++ b'\n' ∷ [])
      (request_json-line method params)
    ∙ ap (λ (t : Received). answer_received handler t ++ b'\n' ∷ []) got
    ∙ ap (λ (o : Option AgentRequest). answer_parsed handler o ++ b'\n' ∷ [])
        (parse_request-asked method members [] h)
