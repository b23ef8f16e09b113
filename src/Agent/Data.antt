-- ===== src/Agent/Data.antt =====
-- src/native_app.cpp, `dispatch_agent_request`: the methods on downloads, bookmarks, history,
-- permissions and events.
use vant.Prelude.{
  ℕ, max, min, Bool, true, false, ◌++◌, if◌then◌else◌, Bytes, codes, bytes_eq, ℤ, pos, negsuc,
}
use vant.Decimal.{to_string}
use vant.Json.{json_string}
use vant.Rpc.{AgentRequest, agent_ok, json_param_string, json_param_integer}
use vant.Events.{AgentEvent, AgentEventLog, since, latest, clear}
use vant.UserData.{
  Permission, ask, allow, deny, Bookmark, HistoryEntry, PermissionEntry, DownloadEntry,
  UserDataStore, add_bookmark, remove_bookmark, bookmarks, history, clear_history, set_permission,
}
use vant.UserData.Downloads.{downloads, remove_download}
use vant.UserData.Listed.{permissions}
use vant.Downloads.{Owner, cancel_download}
use vant.Agent.{Dispatched, replied, thrown, Handler, listed}

abbrev pub done : AgentRequest → Owner → Dispatched
done r o = replied (agent_ok r.id (codes "true")) o

abbrev pub lists : AgentRequest → Owner → Bytes → Dispatched
lists r o text = replied (agent_ok r.id text) o

-- What a call of the store leaves, or its exception.
abbrev pub with_store : AgentRequest → Owner → UserDataStore × Bool → Dispatched
with_store r o (d, true) = done r (record o { store = d })
with_store r o (d, false) = thrown

abbrev pub download_json : DownloadEntry → Bytes
download_json e =
    codes "{\"id\":"
    ++ (to_string e.id
        ++ (codes ",\"uri\":"
            ++ (json_string e.uri
                ++ (codes ",\"destination\":"
                    ++ (json_string e.destination
                        ++ (codes ",\"status\":"
                            ++ (json_string e.status
                                ++ (codes ",\"received\":"
                                    ++ (to_string e.received
                                        ++ (codes ",\"total\":"
                                            ++ (to_string e.total ++ codes "}")))))))))))

unfoldable pub downloads_list : Handler
downloads_list h r o = lists r o (listed download_json (downloads 500 o.store))

-- No row and no running download has a negative number.
abbrev pub cancel_number : ℤ → Owner → Owner
cancel_number (pos n) o = cancel_download n o
cancel_number (negsuc n) o = o

unfoldable pub downloads_cancel : Handler
downloads_cancel h r o =
    done r (cancel_number (json_param_integer r.params_json (codes "id") (pos 0)) o)

abbrev pub remove_number : Bool → ℤ → UserDataStore → UserDataStore × Bool
remove_number works (pos n) d = remove_download works n d
remove_number works (negsuc n) d = (d, if d.private_mode then true else works)

unfoldable pub downloads_remove : Handler
downloads_remove h r o =
    with_store r o
      (remove_number h.works (json_param_integer r.params_json (codes "id") (pos 0)) o.store)

abbrev pub bookmark_json : Bookmark → Bytes
bookmark_json b =
    codes "{\"uri\":"
    ++ (json_string b.uri ++ (codes ",\"title\":" ++ (json_string b.title ++ codes "}")))

unfoldable pub bookmarks_list : Handler
bookmarks_list h r o = lists r o (listed bookmark_json (bookmarks o.store))

unfoldable pub bookmarks_add : Handler
bookmarks_add h r o = with_store r o (
    add_bookmark h.works
      (record {
        uri = json_param_string r.params_json (codes "uri");
        title = json_param_string r.params_json (codes "title");
      })
      o.store)

unfoldable pub bookmarks_remove : Handler
bookmarks_remove h r o =
    with_store r o (remove_bookmark h.works (json_param_string r.params_json (codes "uri")) o.store)

abbrev pub history_json : HistoryEntry → Bytes
history_json e =
    codes "{\"id\":"
    ++ (to_string e.id
        ++ (codes ",\"uri\":"
            ++ (json_string e.uri
                ++ (codes ",\"title\":"
                    ++ (json_string e.title
                        ++ (codes ",\"visited_at\":" ++ (to_string e.visited_at ++ codes "}")))))))

unfoldable pub history_list : Handler
history_list h r o = lists r o (listed history_json (history 500 o.store))

unfoldable pub history_clear : Handler
history_clear h r o = with_store r o (clear_history h.works o.store)

abbrev pub decision_text : Permission → Bytes
decision_text ask = codes "ask"
decision_text allow = codes "allow"
decision_text deny = codes "deny"

abbrev pub permission_json : PermissionEntry → Bytes
permission_json e =
    codes "{\"origin\":"
    ++ (json_string e.origin
        ++ (codes ",\"capability\":"
            ++ (json_string e.capability
                ++ (codes ",\"decision\":"
                    ++ (json_string (decision_text e.decision) ++ codes "}")))))

unfoldable pub permissions_list : Handler
permissions_list h r o = lists r o (listed permission_json (permissions o.store))

abbrev pub decision_of : Bytes → Permission
decision_of text =
    if bytes_eq text (codes "allow")
    then allow
    else if bytes_eq text (codes "deny")
    then deny
    else ask

unfoldable pub permissions_set : Handler
permissions_set h r o = with_store r o (
    set_permission h.works (json_param_string r.params_json (codes "origin"))
      (json_param_string r.params_json (codes "capability"))
      (decision_of (json_param_string r.params_json (codes "decision"))) o.store)

abbrev pub event_json : AgentEvent → Bytes
event_json e =
    codes "{\"sequence\":"
    ++ (to_string e.sequence
        ++ (codes ",\"type\":"
            ++ (json_string e.kind ++ (codes ",\"data\":" ++ (e.payload_json ++ codes "}")))))

-- `std::max` with 0, and `std::clamp` between 1 and 1024.
abbrev pub after_of : ℤ → ℕ
after_of (pos n) = n
after_of (negsuc n) = 0

abbrev pub limit_of : ℤ → ℕ
limit_of (pos n) = min 1024 (max 1 n)
limit_of (negsuc n) = 1

unfoldable pub events_json : AgentEventLog → ℕ → ℕ → Bytes
events_json l after limit =
    codes "{\"latest\":"
    ++ (to_string (latest l)
        ++ (codes ",\"dropped\":"
            ++ (to_string l.dropped
                ++ (codes ",\"events\":"
                    ++ (listed event_json (since l after limit) ++ codes "}")))))

unfoldable pub events_since : Handler
unfolding events_json
events_since h r o =
    replied
      (agent_ok r.id (
        events_json o.app.agent_events
          (after_of (json_param_integer r.params_json (codes "after") (pos 0)))
          (limit_of (json_param_integer r.params_json (codes "limit") (pos 256)))))
      o

unfoldable pub events_clear : Handler
events_clear h r o =
    done r (record o { app = record o.app { agent_events = clear o.app.agent_events } })
