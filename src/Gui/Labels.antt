-- ===== src/Gui/Labels.antt =====
-- What the labels and dialogs of src/gui/main.c show.
use linux_anti_executable.Base.{
  ℕ, zero, suc, ◌+◌, ◌≤◌, ◌<◌, ◌≡◌, ◌≢◌, ◌⊎◌, inl, inr, refl, ap, Bool, true, false, not, Option,
  none, some, List, [], ◌∷◌, if◌then◌else◌, arith, Bool-cases, length, length-append, take,
  take_whole, codes,
}
use linux_anti_executable.Protocol.{ExecRequest}
use linux_anti_executable.Gui.Display.{permission_dialog, path_markup, status_markup, stats_text}
use linux_anti_executable.Gui.{
  Gui, set_text, connect_to_daemon, disconnect_from_daemon, update_status_display, send_response,
  on_dialog_response, show_permission_dialog, Wakeup, hung_up, whole, end_of_file, partial,
  lose_connection, on_socket_readable, dispatch, on_timer, on_reconnect_clicked,
  on_window_close_request, build_main_window, connect_and_show, connect_or_retry, on_activate,
  discard,
}
use linux_anti_executable.Gui.Reconnect.{
  Step, activated, timer_fired, socket_ready, reconnect_clicked, dialog_answered, window_closed,
}

-- The window's labels show the state.
pub record IsShown (g : Gui) : Type 0 where
  pub window : g.main_window ≡ true
  pub status : g.status_label ≡ some (status_markup g.connected)
  pub stats : g.stats_label ≡ some (stats_text g.allowed_count g.denied_count)

-- A window with both labels.
record IsBuilt (g : Gui) : Type 0 where
  window : g.main_window ≡ true
  status : (old : List ℕ) × (g.status_label ≡ some old)
  stats : (old : List ℕ) × (g.stats_label ≡ some old)

IsShown-IsBuilt : (g : Gui) → IsShown g → IsBuilt g
IsShown-IsBuilt g s = record { window = s.window; status = (_, s.status); stats = (_, s.stats) }

update_status_display-IsShown : (g : Gui) → IsBuilt g → IsShown (update_status_display g)
unfolding update_status_display set_text
update_status_display-IsShown g b = record {
  window = b.window;
  status = rw b.status.1 refl;
  stats = rw b.stats.1 refl;
}

connect_and_show-IsShown :
    (sock : Option ℕ) (g : Gui) → IsShown g → IsShown (connect_and_show sock g)
unfolding connect_and_show connect_to_daemon
connect_and_show-IsShown none g s = s
connect_and_show-IsShown (some fd) g s =
    let b = IsShown-IsBuilt g s in
    update_status_display-IsShown (connect_to_daemon (some fd) g).1
      (record { window = b.window; status = b.status; stats = b.stats })

connect_or_retry-IsShown :
    (sock : Option ℕ) (g : Gui) → IsShown g → IsShown (connect_or_retry sock g)
unfolding connect_or_retry connect_to_daemon
connect_or_retry-IsShown none g s =
    let b = IsShown-IsBuilt g s in
    update_status_display-IsShown (record g { reconnects = g.reconnects + 1 })
      (record { window = b.window; status = b.status; stats = b.stats })
connect_or_retry-IsShown (some fd) g s =
    let b = IsShown-IsBuilt g s in
    update_status_display-IsShown (connect_to_daemon (some fd) g).1
      (record { window = b.window; status = b.status; stats = b.stats })

unless-IsShown :
    (connected : Bool) (g other : Gui)
    → IsShown g
    → IsShown other
    → IsShown (if not connected then other else g)
unless-IsShown true g other s t = s
unless-IsShown false g other s t = t

-- The window is there already.
build_main_window-IsShown :
    (g : Gui) → IsShown g → IsShown (if not g.main_window then build_main_window g else g)
build_main_window-IsShown g s = simp s.window s

on_activate-IsShown : (sock : Option ℕ) (g : Gui) → IsShown g → IsShown (on_activate sock g).1
unfolding on_activate
on_activate-IsShown sock g s =
    let g1 = if not g.main_window then build_main_window g else g in
    let t = build_main_window-IsShown g s in
    unless-IsShown g1.connected g1 (connect_or_retry sock g1) t (connect_or_retry-IsShown sock g1 t)

lose_connection-IsShown :
    (sock : ℕ) (g : Gui)
    → IsShown g
    → IsShown
        (record (lose_connection g) { watches = discard (some sock) (lose_connection g).watches })
unfolding lose_connection disconnect_from_daemon
lose_connection-IsShown sock g s =
    let b = IsShown-IsBuilt g s in
    let u =
      update_status_display-IsShown (disconnect_from_daemon g)
        (record { window = b.window; status = b.status; stats = b.stats }) in
    record { window = u.window; status = u.status; stats = u.stats }

dispatch-IsShown :
    (sock : ℕ) (wakeup : Wakeup) (g : Gui) → IsShown g → IsShown (dispatch sock wakeup g)
unfolding dispatch on_socket_readable show_permission_dialog
dispatch-IsShown sock hung_up g s = lose_connection-IsShown sock g s
dispatch-IsShown sock (whole request) g s = record {
  window = s.window;
  status = s.status;
  stats = s.stats;
}
dispatch-IsShown sock end_of_file g s = lose_connection-IsShown sock g s
dispatch-IsShown sock partial g s = s

on_reconnect_clicked-IsShown :
    (sock : Option ℕ) (g : Gui) → IsShown g → IsShown (on_reconnect_clicked sock g)
unfolding on_reconnect_clicked
on_reconnect_clicked-IsShown sock g s =
    unless-IsShown g.connected g (connect_and_show sock g) s (connect_and_show-IsShown sock g s)

on_dialog_response-IsShown :
    (write_ok : Bool) (button id : ℕ) (g : Gui)
    → IsShown g
    → IsShown (on_dialog_response write_ok button id g)
unfolding on_dialog_response send_response update_status_display set_text
on_dialog_response-IsShown write_ok button id g s = ground (arith, s)

-- The timer's connection is not shown.
on_timer-IsShown :
    (fd : ℕ) (g : Gui)
    → IsShown g
    → ((not g.connected ≡ false) × IsShown (on_timer (some fd) g))
      ⊎ ((not g.connected ≡ true)
          × ((on_timer (some fd) g).connected ≡ true)
          × ((on_timer (some fd) g).status_label ≡ some (status_markup false)))
unfolding on_timer connect_to_daemon
on_timer-IsShown fd g s = elim (Bool-cases g.connected) [
  | inl on ↦
      inl (ap not on, record { window = s.window; status = rw on at s.status; stats = s.stats })
  | inr off ↦ inr (ap not off, refl, rw off at s.status)
]

-- The step is a timer that connects a GUI without a connection.
abbrev pub timer_connects : {g g' : Gui} → Step g g' → Bool
timer_connects (timer_fired (some fd) g new waits) = not g.connected
timer_connects _ = false

-- While the window's labels show the connection and the counters, every callback leaves labels that
-- show them, except a timer that connects the GUI, which always leaves the label for a lost
-- connection.
pub Step-IsShown :
    {g g' : Gui} (step : Step g g')
    → IsShown g
    → ((timer_connects step ≡ false) × IsShown g')
      ⊎ ((timer_connects step ≡ true)
          × (g'.connected ≡ true)
          × (g'.status_label ≡ some (status_markup false)))
unfolding on_window_close_request on_timer connect_to_daemon
Step-IsShown (activated sock g new) s = inl (refl, on_activate-IsShown sock g s)
Step-IsShown (timer_fired none g new waits) s = inl (refl, s)
Step-IsShown (timer_fired (some fd) g new waits) s = on_timer-IsShown fd g s
Step-IsShown (socket_ready sock wakeup g watched) s = inl (refl, dispatch-IsShown sock wakeup g s)
Step-IsShown (reconnect_clicked sock g new) s = inl (refl, on_reconnect_clicked-IsShown sock g s)
Step-IsShown (dialog_answered write_ok button id g) s =
    inl (refl, on_dialog_response-IsShown write_ok button id g s)
Step-IsShown (window_closed g) s =
    inl (refl, record { window = s.window; status = s.status; stats = s.stats })

take_short : (n : ℕ) (xs : List ℕ) → n < length xs → take n xs ≢ xs
take_short zero [] h = absurd (omega arith)
take_short zero (x ∷ xs) h = λ same. cc
take_short (suc n) [] h = absurd (omega arith)
take_short (suc n) (x ∷ xs) h = λ same. take_short n xs (omega arith) (ground arith)

length-path_markup : (path : List ℕ) → length (path_markup path) ≡ length path + 22
length-path_markup path = omega (arith, length-append path (codes "</tt>"))

-- The dialog shows the whole path up to 4073 bytes, and a longer one loses the end of its markup.
pub permission_dialog-path :
    (r : ExecRequest)
    → (length r.path ≤ 4073 → (permission_dialog r).path ≡ path_markup r.path)
      × (4073 < length r.path → (permission_dialog r).path ≢ path_markup r.path)
unfolding permission_dialog
permission_dialog-path r =
    let whole_length = length-path_markup r.path in
    (
      λ short. take_whole 4095 (path_markup r.path) (omega arith),
      λ long same. absurd (take_short 4095 (path_markup r.path) (omega arith) same),
    )
