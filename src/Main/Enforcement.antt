-- ===== src/Main/Enforcement.antt =====
-- What the daemon of src/daemon/main.c enforces outside of learning mode: the database as the start
-- left it, and nothing else.
use linux_anti_executable.Base.{ℕ, ◌≡◌, refl, true, false, some, List, [], arith, is_true}
use linux_anti_executable.Hash.Hex.{Libc}
use linux_anti_executable.Hash.File.{Sha256}
use linux_anti_executable.Hash.File.Digest.{IsSha256}
use linux_anti_executable.Whitelist.{Sqlite}
use linux_anti_executable.Config.{Config, default_config, ConfigFile, Opt, parsed, load_config}
use linux_anti_executable.Ipc.{is_timed}
use linux_anti_executable.Fanotify.{Daemon}
use linux_anti_executable.Fanotify.Loop.{event_loop}
use linux_anti_executable.Fanotify.Returns.{event_loop_returns}
use linux_anti_executable.Fanotify.Settled.{answer_rounds, ByButtons, IsSettled}
use linux_anti_executable.Fanotify.Settled.Rounds.{Answers, event_loop-Answers}
use linux_anti_executable.Main.Begin.{serving-Begins}
use linux_anti_executable.Main.Background.{Always-some}
use linux_anti_executable.Main.{Surroundings, serving, shut_down, start, serve, main_from, main}

module _ ⦃libc : Libc⦄ (sql : Sqlite) (sha : Sha256) where
  -- The cache is empty yet, so it is no way around the database.
  serving-IsSettled :
      (e : Surroundings) (cfg : Config) (d : Daemon sql.Db)
      → start sql sha e cfg ≡ serving d
      → IsSettled sql cfg d.stores.whitelist d
  serving-IsSettled e cfg d begun =
      let b = serving-Begins sql sha e cfg d begun in
      record {
        ready = record {
          valid = b.valid;
          unlimited = b.unlimited;
          opened = b.opened;
          idle = b.idle;
        };
        config = b.config;
        whitelist = refl;
        vouched = λ q h. ground (arith, b.empty q, h);
      }

  -- A daemon that does not learn, with a positive timeout for the GUI, enforces the database, in the
  -- foreground as in the background: if the start with the loaded configuration comes to the event
  -- loop, and all replies are sent by the buttons of the GUI's dialog, `main` ends with status 0
  -- after any rounds, and the verdicts that the kernel was given are, event by event and in order,
  -- those that the database as the start left it and the configuration determine: what is not checked
  -- is allowed, a checked file is allowed if its hash is listed or the default is to allow, and
  -- denied otherwise. Whether a GUI is connected, which button the user presses, the cache and the
  -- time make no difference.
  pub main_enforces :
      {digest : List ℕ → List ℕ} (laws : IsSha256 sha digest) (files : List ℕ → ConfigFile)
      (opts : List Opt) (e : Surroundings) (cfg : Config) (d : Daemon sql.Db)
      → load_config files opts default_config ≡ parsed cfg
      → start sql sha e cfg ≡ serving d
      → is_true cfg.learning_mode ≡ false
      → is_timed cfg.gui_timeout_ms ≡ true
      → ByButtons e.rounds
      → (d' : Daemon sql.Db) × (main sql sha files opts e ≡ some (0, d'))
        × (d'.verdicts ≡ answer_rounds sql sha cfg d.stores.whitelist e.rounds [])
  unfolding main serve shut_down
  main_enforces laws files opts e cfg d loaded begun unlearned timed buttons =
      let b = serving-Begins sql sha e cfg d begun in
      let w = d.stores.whitelist in
      let o = serving-IsSettled e cfg d begun in
      let (last, run, kept, ready) =
        event_loop_returns sql sha e.rounds d (rw b.config timed) o.ready in
      let answered =
        Always-some sql sha
          (Answers sql sha laws cfg w unlearned timed (answer_rounds sql sha cfg w e.rounds []))
          (event_loop sql sha e.rounds d) last
          (event_loop-Answers sql sha laws cfg w unlearned timed e.rounds d [] o b.verdicts buttons)
          run in
      (shut_down sql last, rw (loaded, main_from, begun, serve, run) refl, answered.1)
