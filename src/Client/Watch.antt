-- ===== src/Client/Watch.antt =====
-- src/agent_rpc.cpp, the rounds of `vant agent watch`, with the browser of src/native_app.cpp at the
-- other end.
use vant.Prelude.{
  ℕ, ◌^◌, ◌≤◌, ◌<◌, ◌≡◌, ◌∙◌, refl, ap, sym, true, [], ◌∷◌, ◌++◌, append_assoc, none, some, arith,
  Bytes, codes, length, All,
}
use vant.Decimal.{to_string, IsDigit}
use vant.Strings.{find_text, starts_with, cut}
use vant.Json.{json_string, json_escape, escape_byte}
use vant.Rpc.{AgentRequest, agent_ok, field, locate, value_at, leading_number}
use vant.Rpc.Values.{Members, object, print, IsSound}
use vant.Rpc.Numbers.{
  to_string-digits, skip_spaces-number, leading_number-to_string, value_at-to_string,
}
use vant.Rpc.RoundTrip.{asked, read_value-object}
use vant.Server.{line_limit, in_time}
use vant.Server.Answers.{serve-request_json}
use vant.Events.{AgentEventLog, latest}
use vant.Downloads.{Owner}
use vant.Agent.{Host}
use vant.Agent.Data.{events_json}
use vant.Agent.Events.{Told, events_json-print}
use vant.Client.{
  says_ok, result_shown, number_or, goes_on, round_of, latest_of, signed, stoull, watch_round,
}
use vant.Client.Commands.{over}
use vant.Client.Polls.{answers, watched, params, watched-IsSound, params-print, answers-watched}

signed_digit :
    (c : ℕ) (w : Bytes) (n : ℕ)
    → IsDigit c
    → leading_number none (c ∷ w) ≡ some n
    → n < 2 ^ 64
    → signed (c ∷ w) ≡ some n
signed_digit c w n h e small = ground (arith, h, e, small)

stoull-to_string : (n : ℕ) → n < 2 ^ 64 → stoull (to_string n) ≡ some n
unfolding stoull
stoull-to_string n small =
    let (c, w, e, h) = to_string-digits n in
    ap signed (skip_spaces-number n)
    ∙ ap signed e
    ∙ signed_digit c w n h.0 (ap (leading_number none) (sym e) ∙ leading_number-to_string n) small

-- A reply that is all right, and its result.
abbrev reply_line : Bytes → Bytes
reply_line result = agent_ok (codes "cli") result ++ b'\n' ∷ []

reply_line-ok : (result : Bytes) → says_ok (reply_line result) ≡ true
unfolding agent_ok json_string json_escape escape_byte find_text starts_with
reply_line-ok result = refl

reply_line-shown :
    (after : ℕ) (result : Bytes)
    → round_of after (some (reply_line result))
      ≡ result_shown after (field (reply_line result) (codes "result"))
reply_line-shown after result = rw (reply_line-ok result) refl

locate-result :
    (result : Bytes)
    → locate (reply_line result) (codes "result") ≡ some ((result ++ codes "}") ++ b'\n' ∷ [])
unfolding agent_ok json_string json_escape escape_byte locate find_text starts_with cut
locate-result result = refl

result-read :
    (members : Members)
    → IsSound (object members)
    → field (reply_line (print (object members))) (codes "result") ≡ some (print (object members))
unfolding field
result-read members sound =
    let result = print (object members) in
    ap value_at (locate-result result)
    ∙ ap (λ (t : Bytes). value_at (some t)) (append_assoc result (codes "}") (b'\n' ∷ []))
    ∙ read_value-object members (b'\n' ∷ []) sound

locate-latest :
    (m : ℕ) (rest : Bytes)
    → locate
        (codes "{\"latest\":" ++ (to_string m ++ (codes ",\"dropped\":" ++ rest)))
        (codes "latest")
      ≡ some (to_string m ++ (codes ",\"dropped\":" ++ rest))
unfolding locate find_text starts_with cut
locate-latest m rest = refl

latest-read :
    (l : AgentEventLog) (n after : ℕ)
    → latest_of n (field (events_json l after 256) (codes "latest")) ≡ latest l
unfolding field events_json latest
latest-read l n after =
    ap (λ o. latest_of n (value_at o)) (locate-latest (latest l) _)
    ∙ ap (latest_of n) (value_at-to_string (latest l) b',' _ refl)
    ∙ ap (number_or n) (stoull-to_string (latest l) (omega arith))

sent :
    (h : Host) (o : Owner) (after : ℕ)
    → after < 2 ^ 63
    → length (asked (codes "events.since") (print (object (watched after))) []) ≤ line_limit
    → over (answers h o) (codes "events.since") (params after)
      ≡ some (reply_line (events_json o.app.agent_events after 256))
sent h o after small fits =
    ap (over (answers h o) (codes "events.since")) (params-print after)
    ∙ ap (λ (t : Bytes). some t)
        (serve-request_json (answers h o) (codes "events.since") (watched after)
          (watched-IsSound after) fits)
    ∙ ap (λ a. some (in_time request a ++ b'\n' ∷ [])) (answers-watched h o after small)
  where
    request : AgentRequest
    request = record {
      id = codes "cli";
      method = codes "events.since";
      params_json = print (object (watched after));
    }

-- A round of `watch` behind the event `after` shows what the browser has then, the log's events behind
-- `after` but no more than 256 of them, and goes on behind the latest event of the log, whether that
-- was shown or not. The payloads of the events are values of JSON, `after` fits 63 bits, and the
-- request the server's limit.
pub watch_round-events :
    (h : Host) (o : Owner) (after : ℕ)
    → All Told o.app.agent_events.events
    → after < 2 ^ 63
    → length (asked (codes "events.since") (print (object (watched after))) []) ≤ line_limit
    → watch_round (over (answers h o)) after
      ≡ goes_on (events_json o.app.agent_events after 256 ++ b'\n' ∷ []) (latest o.app.agent_events)
unfolding watch_round
watch_round-events h o after told small fits =
    let (members, sound, same) = events_json-print o.app.agent_events after 256 told in
    ap (round_of after) (sent h o after small fits)
    ∙ reply_line-shown after (events_json o.app.agent_events after 256)
    ∙ ap (result_shown after) (
        ap (λ t. field (reply_line t) (codes "result")) same
        ∙ result-read members sound
        ∙ ap (λ (t : Bytes). some t) (sym same))
    ∙ ap (goes_on (events_json o.app.agent_events after 256 ++ b'\n' ∷ []))
        (latest-read o.app.agent_events after after)
