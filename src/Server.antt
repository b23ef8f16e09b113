-- ===== src/Server.antt =====
-- src/agent_rpc.cpp, `AgentRpcServer`: who owns the agent socket, and what a client is answered. What
-- the system's calls answer is a parameter, and so is the handler of the requests; the threads are
-- left out: a client is served by itself, and what it sends has ended or reached a line end. A handler
-- that does not return is not modelled: `none` is no reply within the server's 30 seconds.
pub mod Ownership
pub mod Answers
pub mod Tests
use vant.Prelude.{
  ℕ, suc, zero, ◌+◌, ◌-◌, ◌^◌, Bool, true, false, not, ◌&&◌, ◌||◌, List, [], ◌∷◌, ◌++◌, Option,
  none, some, ltb, leb, ◌==◌, if◌then◌else◌, Bytes, codes, length,
}
use vant.Decimal.{to_string}
use vant.Preferences.File.{Variables, variable, join_path}
use vant.Rpc.{AgentRequest, parse_request, agent_error}

abbrev or_tmp : Option Bytes → Bytes
or_tmp none = codes "/tmp"
or_tmp (some base) = base

-- `variable` takes an empty value for none, as the source does here.
unfoldable pub agent_socket_path : Variables → ℕ → Bytes
agent_socket_path variables uid =
    join_path (or_tmp (variable (codes "XDG_RUNTIME_DIR") variables))
      (codes "vantage-agent-" ++ to_string uid ++ codes ".sock")

-- What is at the socket's path: nothing, a name that no process listens at, another process's
-- socket, or this server's.
pub data Place : Type 0 where
  absent stale other own : Place

-- Which calls succeed; `short` tells whether the path fits an address.
pub record Calls : Type 0 where
  pub probes : Bool
  pub short : Bool
  pub opens : Bool
  pub closes_on_exec : Bool
  pub binds : Bool
  pub restricts : Bool
  pub listens : Bool

pub record ServerState : Type 0 where
  pub running : Bool
  pub place : Place

abbrev exists : Place → Bool
exists absent = false
exists stale = true
exists other = true
exists own = true

-- A connection is taken where a process listens.
abbrev pub is_listened : Place → Bool
is_listened absent = false
is_listened stale = false
is_listened other = true
is_listened own = true

-- The part in front of the sockets: the place after it, or `none` where another window has it.
unfoldable pub clear_place : Calls → Place → Option Place
clear_place calls place =
    if exists place
    then (if calls.probes && calls.short && is_listened place then none else some absent)
    else some place

-- `bind` fails on a name that is there.
abbrev is_absent : Place → Bool
is_absent absent = true
is_absent stale = false
is_absent other = false
is_absent own = false

-- The part behind it, at the place as it then is.
unfoldable pub take_place : Calls → Place → ServerState × Bool
take_place calls place =
    if not calls.opens || not calls.closes_on_exec || not calls.short
    then (record { running = false; place = place }, false)
    else if not (calls.binds && is_absent place) || not calls.restricts || not calls.listens
    then (record { running = false; place = absent }, false)
    else (record { running = true; place = own }, true)

-- `meanwhile` is what other processes make of the place between the two parts.
abbrev taken : Calls → (Place → Place) → Option Place → ServerState → ServerState × Bool
taken calls meanwhile none s = (s, false)
taken calls meanwhile (some place) s = take_place calls (meanwhile place)

unfoldable pub start : Calls → (Place → Place) → ServerState → ServerState × Bool
unfolding take_place
start calls meanwhile s =
    if s.running then (s, true) else taken calls meanwhile (clear_place calls s.place) s

unfoldable pub stop : ServerState → ServerState
stop s = if not s.running then s else record { running = false; place = absent }

abbrev pub line_limit : ℕ
line_limit = 2 ^ 20

pub data Received : Type 0 where
  too_large : Received
  line : Bytes → Received

abbrev with_byte : ℕ → Received → Received
with_byte c too_large = too_large
with_byte c (line s) = line (c ∷ s)

-- The bytes that a client sends up to a line end, the connection's end or the limit; `room` is what
-- is left of the limit.
unfoldable pub receive : ℕ → Bytes → Received
receive room [] = line []
receive zero (c ∷ s) = if c == b'\n' then line [] else too_large
receive (suc room) (c ∷ s) =
    let rest = with_byte c (receive room s) in if c == b'\n' then line [] else rest

-- What is answered to a request: the handler's reply within 30 seconds, or that there was none.
abbrev pub in_time : AgentRequest → Option Bytes → Bytes
in_time r none =
    agent_error r.id (codes "timeout") (codes "request timed out for method " ++ r.method)
in_time r (some reply) = reply

abbrev pub answer_parsed : (AgentRequest → Option Bytes) → Option AgentRequest → Bytes
answer_parsed handler none =
    agent_error [] (codes "invalid_request") (codes "invalid JSON-RPC request")
answer_parsed handler (some r) = in_time r (handler r)

abbrev pub answer_received : (AgentRequest → Option Bytes) → Received → Bytes
answer_received handler too_large =
    agent_error [] (codes "request_too_large") (codes "request exceeds 1 MiB limit")
answer_received handler (line s) = answer_parsed handler (parse_request s)

-- All that is sent back on a connection, where `sent` is all that was received before the client
-- closed its side or a line ended, and the handler returned.
unfoldable pub serve : (AgentRequest → Option Bytes) → Bytes → Bytes
unfolding receive
serve handler sent = answer_received handler (receive line_limit sent) ++ b'\n' ∷ []
