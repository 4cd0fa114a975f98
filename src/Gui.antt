-- ===== src/Gui.antt =====
-- src/gui/main.c: the GUI's connection to the daemon, its timers and callbacks, and the answers that
-- its dialogs send. What the system and GTK answer is an argument.
pub mod Display
pub mod Answers
pub mod Unheard
pub mod Reconnect
pub mod Leak
pub mod Labels
use linux_anti_executable.Base.{
  ℕ, ◌+◌, ◌-◌, ◌%◌, ◌^◌, Bool, true, false, not, ◌&&◌, Option, none, some, List, [], ◌∷◌, ◌==◌,
  if◌then◌else◌, ℤ, pos, minus_one, is_zero, codes,
}
use linux_anti_executable.Protocol.{
  ExecRequest, ExecResponse, msg_allow_once, msg_allow_always, msg_deny,
}
use linux_anti_executable.Gui.Display.{Dialog, permission_dialog, status_markup, stats_text}

-- `g_app`, where -1 and NULL are `none`, and what the system keeps for the GUI. A watch is named by
-- its socket; `dialogs` are those on the screen, `written` is what went to the daemon, `sockets` and
-- `watches` are the open sockets and the main loop's sources on them, and `reconnects` counts the
-- timers that call `connect_to_daemon`. The newest stand first.
pub record Gui : Type 0 where
  pub main_window : Bool
  pub status_label : Option (List ℕ)
  pub stats_label : Option (List ℕ)
  pub daemon_socket : Option ℕ
  pub socket_watch_id : Option ℕ
  pub connected : Bool
  pub minimized_to_tray : Bool
  pub allowed_count : ℕ
  pub denied_count : ℕ
  pub dialogs : List Dialog
  pub written : List ExecResponse
  pub sockets : List ℕ
  pub watches : List ℕ
  pub reconnects : ℕ

abbrev pub started_gui : Gui
started_gui = record {
  main_window = false;
  status_label = none;
  stats_label = none;
  daemon_socket = none;
  socket_watch_id = none;
  connected = false;
  minimized_to_tray = false;
  allowed_count = 0;
  denied_count = 0;
  dialogs = [];
  written = [];
  sockets = [];
  watches = [];
  reconnects = 0;
}

-- A socket is closed, or a watch removed.
unfoldable pub discard : Option ℕ → List ℕ → List ℕ
discard none fds = fds
discard (some fd) [] = []
discard (some fd) (x ∷ xs) = if x == fd then xs else x ∷ discard (some fd) xs

-- The argument is the connected socket, if `socket` and `connect` succeed.
unfoldable pub connect_to_daemon : Option ℕ → Gui → ℤ × Gui
connect_to_daemon none g = (minus_one, g)
connect_to_daemon (some sock) g = (
  pos 0,
  record g {
    daemon_socket = some sock;
    connected = true;
    socket_watch_id = some sock;
    sockets = sock ∷ g.sockets;
    watches = sock ∷ g.watches;
  },
)

unfoldable pub disconnect_from_daemon : Gui → Gui
disconnect_from_daemon g = record g {
  watches = discard g.socket_watch_id g.watches;
  socket_watch_id = none;
  sockets = discard g.daemon_socket g.sockets;
  daemon_socket = none;
  connected = false;
}

-- A write that fails is only reported.
unfoldable pub send_response : Bool → ℕ → ℕ → Gui → Gui
send_response write_ok request_id response g =
    if not g.connected
    then g
    else if not write_ok
    then g
    else record g { written = record { request_id = request_id; response = response } ∷ g.written }

-- `if (label) gtk_label_set_...(label, text)`
set_text : List ℕ → Option (List ℕ) → Option (List ℕ)
set_text text none = none
set_text text (some old) = some text

unfoldable pub update_status_display : Gui → Gui
unfolding set_text
update_status_display g = record g {
  status_label = set_text (status_markup g.connected) g.status_label;
  stats_label = set_text (stats_text g.allowed_count g.denied_count) g.stats_label;
}

-- The switch on the dialog's button: the message, and whether it counts as allowed.
unfoldable pub button_message : ℕ → ℕ × Bool
button_message response_id =
    if response_id == 1
    then (msg_allow_once, true)
    else if response_id == 2
    then (msg_allow_always, true)
    else (msg_deny, false)

-- The dialog leaves the screen.
close_dialog : ℕ → List Dialog → List Dialog
close_dialog id [] = []
close_dialog id (d ∷ ds) = if d.request_id == id then ds else d ∷ close_dialog id ds

unfoldable pub on_dialog_response : Bool → ℕ → ℕ → Gui → Gui
unfolding close_dialog
on_dialog_response write_ok response_id request_id g =
    let (message, allowed) = button_message response_id in
    let g1 =
      if allowed
      then record g { allowed_count = (g.allowed_count + 1) % 2 ^ 64 }
      else record g { denied_count = (g.denied_count + 1) % 2 ^ 64 } in
    let g2 = update_status_display (send_response write_ok request_id message g1) in
    record g2 { dialogs = close_dialog request_id g2.dialogs }

unfoldable pub show_permission_dialog : ExecRequest → Gui → Gui
show_permission_dialog request g = record g { dialogs = permission_dialog request ∷ g.dialogs }

-- `g_timeout_add_seconds(5, connect_to_daemon, NULL)`
abbrev pub add_reconnect : Gui → Gui
add_reconnect g = record g { reconnects = g.reconnects + 1 }

-- What wakes the watch on a socket: a lost connection, or data with the answer of `read`.
pub data Wakeup : Type 0 where
  hung_up : Wakeup
  whole : ExecRequest → Wakeup
  end_of_file : Wakeup
  partial : Wakeup

lose_connection : Gui → Gui
lose_connection g = add_reconnect (update_status_display (disconnect_from_daemon g))

-- The result says whether the watch goes on. A read of another length is passed over.
unfoldable pub on_socket_readable : Wakeup → Gui → Bool × Gui
unfolding lose_connection
on_socket_readable hung_up g = (false, lose_connection g)
on_socket_readable (whole request) g = (true, show_permission_dialog request g)
on_socket_readable end_of_file g = (false, lose_connection g)
on_socket_readable partial g = (true, g)

-- The main loop calls the watch's callback, and drops the watch if the callback wants no more.
unfoldable pub dispatch : ℕ → Wakeup → Gui → Gui
dispatch sock wakeup g =
    let (goes_on, g1) = on_socket_readable wakeup g in
    if goes_on then g1 else record g1 { watches = discard (some sock) g1.watches }

-- The main loop calls `connect_to_daemon` as a timer's callback: its 0 is FALSE, which ends the
-- timer, and its -1 keeps it.
unfoldable pub on_timer : Option ℕ → Gui → Gui
on_timer sock g =
    let (status, g1) = connect_to_daemon sock g in
    if is_zero status then record g1 { reconnects = g1.reconnects - 1 } else g1

-- `if (connect_to_daemon() == 0) update_status_display();`
connect_and_show : Option ℕ → Gui → Gui
connect_and_show sock g =
    let (status, g1) = connect_to_daemon sock g in
    if is_zero status then update_status_display g1 else g1

unfoldable pub on_reconnect_clicked : Option ℕ → Gui → Gui
unfolding connect_and_show
on_reconnect_clicked sock g = if not g.connected then connect_and_show sock g else g

unfoldable pub on_window_close_request : Gui → Bool × Gui
on_window_close_request g = (true, record g { minimized_to_tray = true })

-- The window with its two labels; the other widgets do not change.
unfoldable pub build_main_window : Gui → Gui
build_main_window g = update_status_display (record g {
  main_window = true;
  status_label = some [];
  stats_label = some (codes "Allowed: 0 | Denied: 0");
})

-- A failed attempt leaves a timer.
connect_or_retry : Option ℕ → Gui → Gui
connect_or_retry sock g =
    let (status, g1) = connect_to_daemon sock g in
    update_status_display (if not (is_zero status) then add_reconnect g1 else g1)

-- The result says whether the window is presented.
unfoldable pub on_activate : Option ℕ → Gui → Bool × Gui
unfolding connect_or_retry
on_activate sock g =
    let g1 = if not g.main_window then build_main_window g else g in
    let g2 = if not g1.connected then connect_or_retry sock g1 else g1 in
    (not g2.minimized_to_tray, g2)

unfoldable pub on_shutdown : Gui → Gui
on_shutdown g = disconnect_from_daemon g
