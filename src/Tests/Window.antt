-- ===== src/Tests/Window.antt =====
-- Runs of the GUI's window, its timers and its dialogs.
use linux_anti_executable.Base.{
  ℕ, ◌≤◌, ◌≡◌, ◌⊎◌, refl, true, false, none, some, codes, length, arith,
}
use linux_anti_executable.Gui.Display.{status_markup, stats_text}
use linux_anti_executable.Gui.{
  Gui, started_gui, connect_to_daemon, update_status_display, build_main_window, on_activate,
  on_timer,
}
use linux_anti_executable.Gui.Reconnect.{
  Reachable, first, next, Step, timer_fired, is_new, has, Reachable-reconnects,
}
use linux_anti_executable.Gui.Leak.{Reachable-forgotten}
use linux_anti_executable.Gui.Labels.{IsShown, timer_connects, Step-IsShown}
use linux_anti_executable.Protocol.{ExecRequest}

-- The daemon is not there yet, and is when the timer fires.
abbrev waiting : Gui
waiting = (on_activate none started_gui).1

abbrev joined : Gui
joined = on_timer (some 5) waiting

joining : Step waiting joined
unfolding on_activate build_main_window update_status_display connect_to_daemon is_new has
joining = timer_fired (some 5) waiting refl (omega arith)

Reachable-reconnects_example :
    ((fd : ℕ) × (joined.connected ≡ true)
      × (joined.daemon_socket ≡ some fd)
      × (joined.socket_watch_id ≡ some fd))
    ⊎ ((joined.connected ≡ false)
        × (joined.daemon_socket ≡ none)
        × (joined.socket_watch_id ≡ none)
        × (1 ≤ joined.reconnects))
Reachable-reconnects_example = Reachable-reconnects (next (first none) joining)

Reachable-forgotten_example :
    (g : Gui) × Reachable g
    × (g.connected ≡ false)
    × (g.daemon_socket ≡ none)
    × (length g.sockets ≡ 3)
Reachable-forgotten_example = Reachable-forgotten 3

waiting-IsShown : IsShown waiting
unfolding on_activate build_main_window update_status_display connect_to_daemon status_markup
    stats_text
waiting-IsShown = record { window = refl; status = refl; stats = refl }

Step-IsShown_example :
    ((timer_connects joining ≡ false) × IsShown joined)
    ⊎ ((timer_connects joining ≡ true)
        × (joined.connected ≡ true)
        × (joined.status_label ≡ some (status_markup false)))
Step-IsShown_example = Step-IsShown joining waiting-IsShown

abbrev shown : ExecRequest
shown = record {
  request_id = 1;
  pid = 77;
  uid = 0;
  path = codes "/usr/bin/ls";
  hash = codes "00ff";
  cmdline = codes "";
  parent_path = codes "/bin/sh";
  is_shared_lib = false;
}
