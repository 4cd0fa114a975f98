-- ===== src/Gui/Reconnect.antt =====
-- The GUI of src/gui/main.c as a state machine: whether it comes back to the daemon.
use linux_anti_executable.Base.{
  ℕ, ◌≤◌, ◌≡◌, ◌⊎◌, inl, inr, refl, Bool, true, false, not, ◌||◌, Option, none, some, List, [], ◌∷◌,
  ◌==◌, if◌then◌else◌, arith, Bool-cases,
}
use linux_anti_executable.Gui.{
  Gui, started_gui, connect_to_daemon, disconnect_from_daemon, update_status_display, send_response,
  on_dialog_response, show_permission_dialog, Wakeup, hung_up, whole, end_of_file, partial,
  lose_connection, on_socket_readable, dispatch, on_timer, on_reconnect_clicked,
  on_window_close_request, build_main_window, connect_and_show, connect_or_retry, on_activate,
}

unfoldable pub has : ℕ → List ℕ → Bool
has fd [] = false
has fd (x ∷ xs) = x == fd || has fd xs

-- A new socket is none that is open.
unfoldable pub is_new : Option ℕ → Gui → Bool
is_new none g = true
is_new (some fd) g = not (has fd g.sockets)

-- A callback that the main loop calls: a timer only while there is one, a watch only while it is
-- there.
pub data Step : Gui → Gui → Type 0 where
  activated : (sock : Option ℕ) (g : Gui) → is_new sock g ≡ true → Step g (on_activate sock g).1
  timer_fired :
      (sock : Option ℕ) (g : Gui)
      → is_new sock g ≡ true
      → 1 ≤ g.reconnects
      → Step g (on_timer sock g)
  socket_ready :
      (sock : ℕ) (wakeup : Wakeup) (g : Gui)
      → has sock g.watches ≡ true
      → Step g (dispatch sock wakeup g)
  reconnect_clicked :
      (sock : Option ℕ) (g : Gui) → is_new sock g ≡ true → Step g (on_reconnect_clicked sock g)
  dialog_answered :
      (write_ok : Bool) (button request_id : ℕ) (g : Gui)
      → Step g (on_dialog_response write_ok button request_id g)
  window_closed : (g : Gui) → Step g (on_window_close_request g).1

-- The states after the first activation.
pub data Reachable : Gui → Type 0 where
  first : (sock : Option ℕ) → Reachable (on_activate sock started_gui).1
  next : {g g' : Gui} → Reachable g → Step g g' → Reachable g'

-- What the reconnection reads of the state.
record Link : Type 0 where
  connected : Bool
  socket : Option ℕ
  watch : Option ℕ
  timers : ℕ

link : Gui → Link
link g = record {
  connected = g.connected;
  socket = g.daemon_socket;
  watch = g.socket_watch_id;
  timers = g.reconnects;
}

-- Online with its watch, or offline with a timer.
IsSound : Link → Type 0
IsSound l =
    ((fd : ℕ) × (l.connected ≡ true) × (l.socket ≡ some fd) × (l.watch ≡ some fd))
    ⊎ ((l.connected ≡ false) × (l.socket ≡ none) × (l.watch ≡ none) × (1 ≤ l.timers))

IsSound-link : (g' g : Gui) → link g' ≡ link g → IsSound (link g) → IsSound (link g')
IsSound-link g' g same h = rw same h

-- A callback that does something only without a connection.
unless_connected-IsSound :
    (g other : Gui)
    → IsSound (link g)
    → IsSound (link other)
    → IsSound (link (if not g.connected then other else g))
unless_connected-IsSound g other h k = elim (Bool-cases g.connected) [
  | inl on ↦ simp on h
  | inr off ↦ simp off k
]

-- An attempt to connect changes nothing, or connects.
connect_or_retry-IsSound :
    (sock : Option ℕ) (g : Gui) → IsSound (link g) → IsSound (link (connect_or_retry sock g))
unfolding IsSound link connect_or_retry connect_to_daemon update_status_display
connect_or_retry-IsSound none g (inl on) = inl on
connect_or_retry-IsSound none g (inr (c, d, w, t)) = inr (c, d, w, omega arith)
connect_or_retry-IsSound (some fd) g h = inl (fd, refl, refl, refl)

connect_and_show-IsSound :
    (sock : Option ℕ) (g : Gui) → IsSound (link g) → IsSound (link (connect_and_show sock g))
unfolding IsSound link connect_and_show connect_to_daemon update_status_display
connect_and_show-IsSound none g h = h
connect_and_show-IsSound (some fd) g h = inl (fd, refl, refl, refl)

build_main_window-link :
    (g : Gui) → link (if not g.main_window then build_main_window g else g) ≡ link g
unfolding link build_main_window update_status_display
build_main_window-link g = ground arith

on_activate-IsSound :
    (sock : Option ℕ) (g : Gui) → IsSound (link g) → IsSound (link (on_activate sock g).1)
unfolding on_activate
on_activate-IsSound sock g h =
    let g1 = if not g.main_window then build_main_window g else g in
    let built = IsSound-link g1 g (build_main_window-link g) h in
    unless_connected-IsSound g1 (connect_or_retry sock g1) built
      (connect_or_retry-IsSound sock g1 built)

on_timer-IsSound : (sock : Option ℕ) (g : Gui) → IsSound (link g) → IsSound (link (on_timer sock g))
unfolding IsSound link on_timer connect_to_daemon
on_timer-IsSound none g h = h
on_timer-IsSound (some fd) g h = inl (fd, refl, refl, refl)

dispatch-IsSound :
    (sock : ℕ) (wakeup : Wakeup) (g : Gui)
    → IsSound (link g)
    → IsSound (link (dispatch sock wakeup g))
unfolding IsSound link dispatch on_socket_readable lose_connection disconnect_from_daemon
    update_status_display show_permission_dialog
dispatch-IsSound sock hung_up g h = inr (refl, refl, refl, omega arith)
dispatch-IsSound sock (whole request) g h = h
dispatch-IsSound sock end_of_file g h = inr (refl, refl, refl, omega arith)
dispatch-IsSound sock partial g h = h

on_reconnect_clicked-IsSound :
    (sock : Option ℕ) (g : Gui) → IsSound (link g) → IsSound (link (on_reconnect_clicked sock g))
unfolding on_reconnect_clicked
on_reconnect_clicked-IsSound sock g h =
    unless_connected-IsSound g (connect_and_show sock g) h (connect_and_show-IsSound sock g h)

on_dialog_response-link :
    (write_ok : Bool) (button request_id : ℕ) (g : Gui)
    → link (on_dialog_response write_ok button request_id g) ≡ link g
unfolding link on_dialog_response send_response update_status_display
on_dialog_response-link write_ok button request_id g = ground arith

Step-IsSound : {g g' : Gui} → Step g g' → IsSound (link g) → IsSound (link g')
unfolding link on_window_close_request
Step-IsSound (activated sock g new) h = on_activate-IsSound sock g h
Step-IsSound (timer_fired sock g new some_timer) h = on_timer-IsSound sock g h
Step-IsSound (socket_ready sock wakeup g watched) h = dispatch-IsSound sock wakeup g h
Step-IsSound (reconnect_clicked sock g new) h = on_reconnect_clicked-IsSound sock g h
Step-IsSound (dialog_answered write_ok button id g) h =
    IsSound-link (on_dialog_response write_ok button id g) g
      (on_dialog_response-link write_ok button id g) h
Step-IsSound (window_closed g) h = h

first-IsSound : (sock : Option ℕ) → IsSound (link (on_activate sock started_gui).1)
unfolding IsSound link on_activate build_main_window connect_or_retry connect_to_daemon
    update_status_display
first-IsSound none = inr (refl, refl, refl, omega arith)
first-IsSound (some fd) = inl (fd, refl, refl, refl)

Reachable-IsSound : {g : Gui} → Reachable g → IsSound (link g)
Reachable-IsSound (first sock) = first-IsSound sock
Reachable-IsSound (next r step) = Step-IsSound step (Reachable-IsSound r)

-- After the first activation, in any order of the callbacks, a GUI is either connected, with its
-- socket set and the watch on that socket, or it is not, without a socket or a watch, and then at
-- least one timer will try to connect.
pub Reachable-reconnects :
    {g : Gui}
    → Reachable g
    → ((fd : ℕ) × (g.connected ≡ true)
        × (g.daemon_socket ≡ some fd)
        × (g.socket_watch_id ≡ some fd))
      ⊎ ((g.connected ≡ false)
          × (g.daemon_socket ≡ none)
          × (g.socket_watch_id ≡ none)
          × (1 ≤ g.reconnects))
unfolding IsSound link
Reachable-reconnects r = Reachable-IsSound r
