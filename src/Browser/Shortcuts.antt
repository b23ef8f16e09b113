-- ===== src/Browser/Shortcuts.antt =====
-- The table of keyboard shortcuts in browser_model.cpp.
use vant.Prelude.{Option, none, some, if◌then◌else◌, Bytes, codes, bytes_eq}

pub data Command : Type 0 where
  new_tab new_window new_private_window close_tab reopen_tab focus_address : Command
  command_palette reload stop find history downloads bookmark : Command
  delete_history print fullscreen : Command

unfoldable pub command_for_shortcut : Bytes → Option Command
command_for_shortcut s =
    if bytes_eq s (codes "Ctrl+T")
    then some new_tab
    else if bytes_eq s (codes "Ctrl+N")
    then some new_window
    else if bytes_eq s (codes "Ctrl+Shift+N")
    then some new_private_window
    else if bytes_eq s (codes "Ctrl+W")
    then some close_tab
    else if bytes_eq s (codes "Ctrl+Shift+T")
    then some reopen_tab
    else if bytes_eq s (codes "Ctrl+L")
    then some focus_address
    else if bytes_eq s (codes "Ctrl+K")
    then some command_palette
    else if bytes_eq s (codes "Ctrl+R")
    then some reload
    else if bytes_eq s (codes "Escape")
    then some stop
    else if bytes_eq s (codes "Ctrl+F")
    then some find
    else if bytes_eq s (codes "Ctrl+H")
    then some history
    else if bytes_eq s (codes "Ctrl+J")
    then some downloads
    else if bytes_eq s (codes "Ctrl+D")
    then some bookmark
    else if bytes_eq s (codes "Ctrl+Shift+Delete")
    then some delete_history
    else if bytes_eq s (codes "Ctrl+P")
    then some print
    else if bytes_eq s (codes "F11")
    then some fullscreen
    else none
