-- ===== src/Lib.antt =====
-- The Vantage browser's own logic: what the program decides without GTK, WebKit, SQLite or the
-- network, modelled from its C++ sources.
--
-- Text is a list of bytes, `size_t` and the 64-bit counters are natural numbers, with the wrap-around
-- written out where a counter is incremented; a function that throws returns an Option. `Prelude`
-- and `Strings` hold shared helpers: lists, tests, and the operations of `std::string` and of the
-- C locale that the sources use.
--
-- * Browser (src/browser_model.h, src/browser_model.cpp): the record `BrowserModel` has the fields of
--   the class; `new_tab`, `close_tab`, `reopen_closed`, `duplicate_tab`, `move_tab`, `activate`,
--   `discard_to_limit` and `set_focus` return the new model with the method's result. An iterator of
--   `std::find_if` is the vector split at it. Browser.History puts the public calls in sequence.
-- * Navigation (src/navigation.h, src/navigation.cpp): `resolve` and its helpers.
-- * Launch (src/launch_options.h, src/launch_options.cpp): `parse_launch_options`. The source's index
--   that is moved past the value of `--app` is a flag for the next round.
-- * Events (src/agent_rpc.h, src/agent_rpc.cpp): `AgentEventLog`; its mutex makes each call one step.
-- * Json (src/agent_rpc.cpp): the string literals of the agent protocol, whose reader has a mode for
--   each of the source's inner loops.
-- * TabStrip (src/native_app.cpp): `tab_box_allocate`, which decides the tabs that are shown, their
--   width and their places; what GTK is told is the list of slots.
-- * Windows (src/native_app.cpp): the state of the windows and their tabs, and the handlers that open,
--   select, close, reopen, move and drag tabs (`new_tab`, `create_window`, `close_tab`,
--   `move_tab_to_window`, `tab_drag_begin` and the others); a pointer to a tab or a window is its id,
--   and Windows.History runs the handlers in any order. A pointer to a tab that was freed is outside the
--   model: the handlers change nothing there, where the program reads freed memory.
-- * Downloads (src/native_app.cpp): `download_started`, the handlers of the other signals and
--   `cancel_download`, over the windows, the store of UserData and the running downloads.
-- * Pages (src/native_app.cpp): `load_changed`, `load_failed`, `uri_changed`, the end of
--   `decide_policy`, which takes the address of a load, and the handlers of the address bar's buttons;
--   Suggestions: `address_changed`, which ranks the history for the address bar.
-- * Find (src/native_app.cpp): find in page, `find_changed` to `show_find`, with the text of the
--   scripts; Decimal is `std::to_string`.
-- * Preferences (src/preferences.h, src/preferences.cpp): the settings over the map that the
--   preferences file holds, an association list with rising keys; Preferences.File has the file, read
--   and written, and the environment, and Preferences.DarkMode the setter of a domain over the file.
-- * Application (src/application.h, src/application.cpp) and Program (src/main.cpp): `main` maps the
--   command line and the process to the process after it and what is returned or entered last.
-- * Session (src/session_store.h, src/session_store.cpp): the tabs and the exit mark that survive a
--   restart; which of SQLite's calls succeed is a parameter.
-- * UserData (src/user_data.h, src/user_data.cpp): `UserDataStore`, a list of rows for each table, and
--   its calls; UserData.Downloads has the downloads, UserData.Paths the names of downloaded files, and
--   UserData.Privacy puts the calls in sequence. Which of SQLite's statements succeed is a parameter.
-- * Automation (src/automation.h, src/automation.cpp): the functions that a script may call,
--   `tab_count`, `open_tab` and `bookmark`, over the models of Browser, UserData and Navigation.
-- * Rpc (src/agent_rpc.cpp): `field` and the parameters read by it, `parse_request`, `request_json` and
--   the replies; Rpc.Objects is `json_param_string_object`. Rpc.Values are the values of JSON that a
--   client writes, which the round trips speak of.
-- * Server (src/agent_rpc.cpp): `AgentRpcServer`, who owns the socket's path, and what one client is
--   answered; Client: `run_agent_cli`, with the exchange with a server as a parameter.
-- * Media (src/native_app.cpp): `permission_requested` and the prompt for a camera or a microphone, with
--   the desktop portal's answers as events.
-- * Agent (src/native_app.cpp): `dispatch_agent_request`, over the state of Downloads, which has the
--   windows, their event log, the store and the running downloads. Agent.Data and Agent.Browser have a
--   handler for each method, Agent.Catalog `agent_describe_json`, and Agent.Dispatch the choice of the
--   method.
--
-- The parts meet in the program's hosts: the windows of src/native_app.cpp take the address bar's
-- input through `resolve`, lay their tabs out by the tab strip and publish what happens in the event
-- log. The command line of Client writes requests that Server receives and Rpc reads; the handler that
-- Server is given is the dispatcher of Agent, which acts on the windows and the store and reads the
-- event log. The scripts of Automation open tabs of the browser model at addresses that `resolve` allows.
--
-- Every loop is a recursion on a list, but for three with fuel: `to_string`, whose fuel is the number
-- itself, `free_name`, whose fuel of 257 is enough while names have at most 255 bytes, as a longer one
-- is not there or makes `exists` throw, and the loop of
-- `json_param_string_object`, whose fuel is the length of the text, of which every round takes some.
-- The rounds of `watch`, which ends only by an error, are a list. The 64-bit counters are assumed not to
-- reach their end where a theorem says so.
--
-- Not modelled: the GTK and WebKit calls of src/native_app.cpp and its other handlers, what WebKit, the
-- page and the network answer to an agent, the threads of the agent server, and the JavaScript runtime
-- of the automation host; third_party is other projects' code.
pub mod Agent
pub mod Application
pub mod Automation
pub mod Browser
pub mod Client
pub mod Decimal
pub mod Downloads
pub mod Events
pub mod Find
pub mod Json
pub mod Launch
pub mod Media
pub mod Navigation
pub mod Pages
pub mod Preferences
pub mod Prelude
pub mod Program
pub mod Rpc
pub mod Server
pub mod Session
pub mod Strings
pub mod Suggestions
pub mod TabStrip
pub mod UserData
pub mod Windows
