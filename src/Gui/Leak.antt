-- ===== src/Gui/Leak.antt =====
-- The timers of src/gui/main.c that connect a GUI that is connected already.
use linux_anti_executable.Base.{
  ℕ, zero, suc, ◌+◌, ◌≤◌, ◌≡◌, refl, true, false, none, some, ◌∷◌, arith, length,
}
use linux_anti_executable.Gui.{
  Gui, started_gui, discard, connect_to_daemon, disconnect_from_daemon, update_status_display,
  hung_up, on_socket_readable, dispatch, on_timer, on_reconnect_clicked, on_activate,
  build_main_window, connect_and_show, lose_connection, connect_or_retry,
}
use linux_anti_executable.Gui.Reconnect.{
  has, is_new, Step, timer_fired, socket_ready, reconnect_clicked, Reachable, first, next,
  Reachable-reconnects,
}

-- Disconnected with a timer, and so many forgotten sockets, of numbers below.
record Forgot (n : ℕ) (g : Gui) : Type 0 where
  reachable : Reachable g
  offline : g.connected ≡ false
  sockets : length g.sockets ≡ n
  below : (fd : ℕ) → n ≤ fd → has fd g.sockets ≡ false
  timer : 1 ≤ g.reconnects

-- The button has connected the GUI.
connected : ℕ → Gui → Gui
connected n g = update_status_display (connect_to_daemon (some n) g).1

-- The timer connects it once more, and the first socket hangs up.
overlap : ℕ → Gui → Gui
overlap n g = dispatch n hung_up (on_timer (some (n + 1)) (connected n g))

on_reconnect_clicked-connected :
    (n : ℕ) (g : Gui) → g.connected ≡ false → on_reconnect_clicked (some n) g ≡ connected n g
unfolding on_reconnect_clicked connect_and_show connected connect_to_daemon
on_reconnect_clicked-connected n g off = simp off refl

clicked :
    (n : ℕ) (g : Gui) → g.connected ≡ false → is_new (some n) g ≡ true → Step g (connected n g)
clicked n g off new =
    let step = reconnect_clicked (some n) g new in
    rw (on_reconnect_clicked-connected n g off) at step

record Overlaps (n : ℕ) (g timed lost : Gui) : Type 0 where
  offline : lost.connected ≡ false
  sockets : lost.sockets ≡ n ∷ g.sockets
  timer : 1 ≤ lost.reconnects
  watched : has n timed.watches ≡ true

overlap-Overlaps :
    (n : ℕ) (g : Gui)
    → Forgot n g
    → Overlaps n g (on_timer (some (n + 1)) (connected n g)) (overlap n g)
unfolding overlap connected dispatch on_socket_readable disconnect_from_daemon update_status_display
    on_timer lose_connection connect_to_daemon discard has
overlap-Overlaps n g f = record {
  offline = refl;
  sockets = ground arith;
  timer = omega arith;
  watched = ground arith;
}

connected-new : (n : ℕ) (g : Gui) → Forgot n g → is_new (some (n + 1)) (connected n g) ≡ true
unfolding is_new has connected connect_to_daemon update_status_display
connected-new n g f = ground (arith, f.below (n + 1) (omega arith))

connected-timer : (n : ℕ) (g : Gui) → Forgot n g → 1 ≤ (connected n g).reconnects
unfolding connected connect_to_daemon update_status_display
connected-timer n g f = f.timer

overlap-Forgot : (n : ℕ) (g : Gui) → Forgot n g → Forgot (suc n) (overlap n g)
unfolding overlap has is_new
overlap-Forgot n g f =
    let o = overlap-Overlaps n g f in
    let timed =
      timer_fired (some (n + 1)) (connected n g) (connected-new n g f) (connected-timer n g f) in
    let on = clicked n g f.offline (rw (f.below n (omega arith)) refl) in
    record {
      reachable = next (next (next f.reachable on) timed) (socket_ready n hung_up _ o.watched);
      offline = o.offline;
      sockets = rw o.sockets (omega (arith, f.sockets));
      below = λ fd h. rw o.sockets (ground (arith, f.below fd (omega arith)));
      timer = o.timer;
    }

unconnected-socket : (g : Gui) → Reachable g → g.connected ≡ false → g.daemon_socket ≡ none
unconnected-socket g r off = ground (arith, Reachable-reconnects r)

forget : (n : ℕ) → (g : Gui) × Forgot n g
unfolding on_activate build_main_window connect_or_retry connect_to_daemon update_status_display has
forget zero = (
  (on_activate none started_gui).1,
  record {
    reachable = first none;
    offline = refl;
    sockets = refl;
    below = λ fd h. refl;
    timer = omega arith;
  },
)
forget (suc n) = let (g, f) = forget n in (overlap n g, overlap-Forgot n g f)

-- The GUI can come to states without a connection in which any number of sockets stay open: the
-- sockets that it forgot because a timer connected it when it was connected already.
pub Reachable-forgotten :
    (n : ℕ)
    → (g : Gui) × Reachable g
      × (g.connected ≡ false)
      × (g.daemon_socket ≡ none)
      × (length g.sockets ≡ n)
Reachable-forgotten n =
    let (g, f) = forget n in
    (g, f.reachable, f.offline, unconnected-socket g f.reachable f.offline, f.sockets)
