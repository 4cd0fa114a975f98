-- ===== src/Gui/Display.antt =====
-- What src/gui/main.c puts on the screen: the labels of the main window, and the dialog that asks
-- the user about a program.
use linux_anti_executable.Base.{ℕ, Bool, List, [], ◌∷◌, ◌++◌, if◌then◌else◌, codes, take, decimal}
use linux_anti_executable.Protocol.{ExecRequest}

-- U+25CF and U+2022 in UTF-8.
abbrev disc : List ℕ
disc = 226 ∷ 151 ∷ 143 ∷ []

abbrev bullet : List ℕ
bullet = 226 ∷ 128 ∷ 162 ∷ []

-- The markup of the label for the connection.
unfoldable pub status_markup : Bool → List ℕ
status_markup connected =
    if connected
    then codes "<span color='green'>" ++ disc ++ codes " Connected to daemon</span>"
    else codes "<span color='red'>" ++ disc ++ codes " Disconnected from daemon</span>"

-- `snprintf` into a buffer of 256 bytes.
unfoldable pub stats_text : ℕ → ℕ → List ℕ
stats_text allowed denied =
    take 255 (codes "Allowed: " ++ decimal allowed ++ codes " | Denied: " ++ decimal denied)

-- A dialog with the texts of its buttons, the answer of each, and the markup of its labels from
-- above.
pub record Dialog : Type 0 where
  pub request_id : ℕ
  pub buttons : List (List ℕ × ℕ)
  pub default_response : ℕ
  pub title : List ℕ
  pub heading : List ℕ
  pub path : List ℕ
  pub hash : List ℕ
  pub origin : List ℕ
  pub note : List ℕ

-- `snprintf` into the buffer of 4096 bytes.
abbrev pub into_buffer : List ℕ → List ℕ
into_buffer text = take 4095 text

-- `request->parent_path[0] ? request->parent_path : "(unknown)"`
launcher : List ℕ → List ℕ
launcher [] = codes "(unknown)"
launcher (c ∷ cs) = c ∷ cs

abbrev pub path_markup : List ℕ → List ℕ
path_markup path = codes "<b>Path:</b>\n<tt>" ++ path ++ codes "</tt>"

-- `show_permission_dialog`. A process id is not negative.
unfoldable pub permission_dialog : ExecRequest → Dialog
unfolding launcher
permission_dialog r = record {
  request_id = r.request_id;
  buttons = (codes "Allow Once", 1) ∷ (codes "Allow Always", 2) ∷ (codes "Deny", 3) ∷ [];
  default_response = 3;
  title = codes "Security Alert - Unknown Program";
  heading = into_buffer (
      codes "<b><big>Unknown "
      ++ (if r.is_shared_lib then codes "Shared Library" else codes "Executable")
      ++ codes " Detected</big></b>\n"
      ++ codes "<span color='#666'>A program not in your whitelist is trying to run.</span>");
  path = into_buffer (path_markup r.path);
  hash = into_buffer (codes "<b>SHA256:</b>\n<tt><small>" ++ r.hash ++ codes "</small></tt>");
  origin = into_buffer (
      codes "<b>Launched by:</b> "
      ++ launcher r.parent_path
      ++ codes "\n<b>Process ID:</b> "
      ++ decimal r.pid);
  note =
      codes "<small><span color='#888'>"
      ++ bullet
      ++ codes " <b>Allow Once</b>: Run this time only, ask again next time\n"
      ++ bullet
      ++ codes " <b>Allow Always</b>: Add to whitelist, never ask again\n"
      ++ bullet
      ++ codes " <b>Deny</b>: Block this program from running</span></small>";
}
