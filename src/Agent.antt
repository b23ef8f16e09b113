-- ===== src/Agent.antt =====
-- src/native_app.cpp, `dispatch_agent_request`: what the browser does for an agent. A request changes
-- the windows, the store and the downloads, and is answered; what WebKit and the network answer to
-- the methods that ask them is left out. What WebKit and SQLite do otherwise is in `Host`.
pub mod Catalog
pub mod Data
pub mod Browser
pub mod Dispatch
pub mod Events
pub mod Places
pub mod Keeps
pub mod Shaped
pub mod Thrown
pub mod Navigate
pub mod Tests
use vant.Prelude.{
  ℕ, ◌+◌, ◌-◌, ◌^◌, Bool, true, false, not, ◌&&◌, List, [], ◌∷◌, ◌++◌, Option, none, some, ◌==◌,
  if◌then◌else◌, Bytes, codes, ℤ, pos, negsuc,
}
use vant.Decimal.{to_string}
use vant.Json.{json_string}
use vant.Rpc.{AgentRequest, agent_error, json_param_integer}
use vant.Windows.{TabState, WindowState, is_some_of, TabPosition, find_position}
use vant.Windows.Opening.{NewView}
use vant.Downloads.{Owner}

-- What is outside: the socket's path and the libraries' versions, what WebKit tells of a view, what a
-- `std::string` holds after it was moved from, and whether SQLite's statement succeeds.
pub record Host : Type 0 where
  pub socket : Bytes
  pub native : Bytes
  pub title : ℕ → Option Bytes
  pub loading : ℕ → Bool
  pub moved_from : Bytes → Bytes
  pub works : Bool
  -- The view of a tab that is opened.
  pub view : NewView
  -- The address that a view has after it was told to load, reload or move.
  pub loaded : Option Bytes

-- How a request ends: with a reply, with what WebKit or the network answers, or with a C++ exception
-- that leaves the callback.
pub data Dispatched : Type 0 where
  replied : Bytes → Owner → Dispatched
  elsewhere thrown : Dispatched

abbrev pub Handler : Type 0
Handler = Host → AgentRequest → Owner → Dispatched

-- `static_cast<std::uint64_t>` of a `long long`.
abbrev pub to_unsigned : ℤ → ℕ
to_unsigned (pos n) = n
to_unsigned (negsuc n) = 2 ^ 64 - (n + 1)

abbrev pub number_param : AgentRequest → Bytes → ℕ
number_param r key = to_unsigned (json_param_integer r.params_json key (pos 0))

abbrev pub true_or_false : Bool → Bytes
true_or_false b = if b then codes "true" else codes "false"

abbrev pub text_or : Bytes → Option Bytes → Bytes
text_or other none = other
text_or other (some s) = s

-- The loops that write a list: a comma in front of each item but the first.
abbrev pub with_commas : {A : Type 0} → (A → Bytes) → Bool → List A → Bytes
with_commas f first [] = []
with_commas f first (x ∷ xs) = (if first then [] else codes ",") ++ (f x ++ with_commas f false xs)

abbrev pub listed : {A : Type 0} → (A → Bytes) → List A → Bytes
listed f xs = codes "[" ++ (with_commas f true xs ++ codes "]")

unfoldable pub open_window : ℕ → List WindowState → Option WindowState
open_window id [] = none
open_window id (w ∷ ws) =
    let later = open_window id ws in if w.id == id && not w.closed then some w else later

-- Without a number it is the first window, whether it is closed or not.
unfoldable pub agent_window : ℕ → List WindowState → Option WindowState
unfolding open_window
agent_window id [] = none
agent_window id (w ∷ ws) = if id == 0 then some w else open_window id (w ∷ ws)

-- A tab that was found, with its window.
pub record TabPlace : Type 0 where
  pub position : TabPosition
  pub window : WindowState

abbrev placed_in : WindowState → Option TabPosition → Option TabPlace
placed_in w none = none
placed_in w (some p) = some (record { position = p; window = w })

abbrev or_later : {A : Type 0} → Option A → Option A → Option A
or_later none later = later
or_later (some x) later = some x

abbrev shows_view : WindowState → Bool
shows_view w = elim w.view [ none ↦ false | some v ↦ true ]

-- The active tab of the first open window that shows one.
unfoldable pub active_place : List WindowState → Option TabPlace
active_place [] = none
active_place (w ∷ ws) =
    let later = active_place ws in
    if not w.closed && shows_view w
    then placed_in w (find_position (λ t. is_some_of w.view t.view) w.tabs)
    else later

unfoldable pub place_of : ℕ → List WindowState → Option TabPlace
place_of id [] = none
place_of id (w ∷ ws) =
    or_later (placed_in w (find_position (λ t. t.id == id) w.tabs)) (place_of id ws)

unfoldable pub agent_tab : ℕ → List WindowState → Option TabPlace
unfolding active_place place_of
agent_tab id ws = if id == 0 then active_place ws else place_of id ws

unfoldable pub agent_tab_json : Host → TabState → WindowState → Bytes
agent_tab_json h t w =
    codes "{\"id\":"
    ++ (to_string t.id
        ++ (codes ",\"window_id\":"
            ++ (to_string w.id
                ++ (codes ",\"uri\":"
                    ++ (json_string (text_or t.display_uri t.view_uri)
                        ++ (codes ",\"title\":"
                            ++ (json_string (text_or [] (h.title t.view))
                                ++ (codes ",\"loading\":"
                                    ++ (true_or_false (h.loading t.view)
                                        ++ (codes ",\"private\":"
                                            ++ (true_or_false w.private_mode ++ codes "}")))))))))))

abbrev pub not_found : Bytes → AgentRequest → Owner → Dispatched
not_found message r o = replied (agent_error r.id (codes "not_found") message) o

abbrev pub with_place : Option TabPlace → Dispatched → (TabPlace → Dispatched) → Dispatched
with_place none missing k = missing
with_place (some p) missing k = k p

-- The tab that a request names, or the active one without a `tab_id`.
abbrev pub on_tab : AgentRequest → Owner → (TabPlace → Dispatched) → Dispatched
on_tab r o k =
    with_place (agent_tab (number_param r (codes "tab_id")) o.app.windows)
      (not_found (codes "tab not found") r o) k
