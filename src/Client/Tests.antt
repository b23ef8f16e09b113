-- ===== src/Client/Tests.antt =====
-- `vant agent` of src/agent_rpc.cpp at concrete arguments.
use vant.Prelude.{
  ◌≡◌, ◌≤◌, refl, false, [], ◌∷◌, ◌++◌, Option, none, some, arith, Bytes, codes, length, All,
}
use vant.Json.{json_string, json_escape, escape_byte}
use vant.Rpc.{AgentRequest, json_param_string, agent_ok}
use vant.Rpc.Values.{
  print, print_members, separated_members, object, no_members, IsSound, MembersSound,
}
use vant.Server.{in_time, line_limit}
use vant.Client.{shown, run_agent_cli, watch_round, goes_on}
use vant.Decimal.{to_string}
use vant.Rpc.RoundTrip.{asked}
use vant.Events.{latest}
use vant.Downloads.{Owner}
use vant.Agent.Data.{events_json}
use vant.Agent.Events.{Told}
use vant.Agent.Tests.{host, browser}
use vant.Client.Polls.{answers, watched}
use vant.Client.Watch.{watch_round-events}
use vant.Client.Commands.{over, request_with, Fits, open-run_agent_cli}

-- A handler that answers every request with its method.
abbrev named : AgentRequest → Option Bytes
named r = some (agent_ok r.id (json_string r.method))

short_open : Fits (codes "browser.navigate") (codes "uri") (codes "nift.dev")
unfolding print json_string json_escape escape_byte
short_open = omega arith

open-run_agent_cli_example :
    let r = request_with (codes "browser.navigate") (codes "uri") (codes "nift.dev") in
    (json_param_string r.params_json (codes "uri") ≡ codes "nift.dev")
    × (run_agent_cli (λ file. none) [] [] (over named) (codes "open" ∷ codes "nift.dev" ∷ [])
        ≡ shown false (some (in_time r (named r) ++ b'\n' ∷ [])))
open-run_agent_cli_example =
    open-run_agent_cli named (λ file. none) [] (codes "nift.dev") short_open

-- A browser with one event in its log.
abbrev one_event : Owner
one_event = record browser {
  app = record browser.app {
    agent_events = record {
      events = record { sequence = 4; kind = codes "page.load"; payload_json = codes "{}" } ∷ [];
      capacity = 2048;
      next = 5;
      dropped = 0;
    };
  };
}

one_event-Told : All Told one_event.app.agent_events.events
unfolding print print_members IsSound MembersSound
one_event-Told = ((object no_members, tt, refl), tt)

short_watch : length (asked (codes "events.since") (print (object (watched 3))) []) ≤ line_limit
unfolding print print_members separated_members json_string json_escape escape_byte to_string
short_watch = omega arith

watch_round-events_example :
    watch_round (over (answers host one_event)) 3
    ≡ goes_on
        (events_json one_event.app.agent_events 3 256 ++ b'\n' ∷ [])
        (latest one_event.app.agent_events)
watch_round-events_example =
    watch_round-events host one_event 3 one_event-Told (omega arith) short_watch
