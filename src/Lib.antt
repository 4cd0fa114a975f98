-- ===== src/Lib.antt =====
-- A verification library for Linux Anti-Executable: a daemon that answers the kernel's permission
-- events for programs and shared libraries from a whitelist of SHA-256 hashes, and the desktop GUI
-- that it asks about unknown files.
--
-- How the parts interact. The event loop of src/daemon/fanotify_handler.c takes permission events,
-- hashes the file by src/common/hash.c, looks the hash up in the cache of
-- src/daemon/whitelist_cache.c and then in the database of src/daemon/whitelist.c, and otherwise asks
-- the GUI of src/gui/main.c over the socket of src/daemon/ipc_server.c, in the messages of
-- src/common/protocol.h. src/daemon/main.c holds the configuration and the exclusion list.
--
-- Which file models which part. Every operation has the name of the C function, takes the state of
-- its module as its last argument and returns the new one beside the C result.
--   Base          lists, Booleans and the C `int`
--   Hash/Hex      bytes_to_hex and hex_to_bytes
--   Hash/File     hash_fd and hash_file; OpenSSL's SHA-256 is the record Sha256, and its documented
--                 behaviour the record IsSha256 of Hash/File/Digest
--   Whitelist     the functions of whitelist.c on its static variables; SQLite is the record Sqlite,
--                 and its documented behaviour the record IsSqlite of Whitelist/Laws;
--                 Whitelist/Scan has whitelist_scan_directory on a tree of directory entries
--   Cache         the functions of whitelist_cache.c on the record Cache, with the Bloom filter in
--                 Cache/Bloom and the chains in Cache/Chain; Cache/Cells has the chains as linked
--                 cells in memory, Cache/Cells/Release the loops that free them, and
--                 Cache/Cells/Heap the operations on them, with a module for each and Runs for
--                 their histories; Cache/Invariant has the invariant IsValid,
--                 Cache/Contents the view as a set, and Cache/History histories of calls
--   Config        parse_config_file, parse_args and the start of main; Config/Scan has the scanning
--                 of a line and atoi, Config/Exclusion is_path_excluded, and Config/Written the
--                 settings as a file that is read back
--   Protocol      the messages and the two enums of response codes; Protocol/Layout has the messages
--                 as bytes, and Protocol/RoundTrip reads them back
--   Ipc           the server's state and ipc_request_permission, the reader and accept threads' steps;
--                 Ipc/Callers has several callers that take turns, and Ipc/Threads the
--                 descriptors of the accept and reader threads; Ipc/Wire has the bytes on the
--                 socket between the daemon and the GUI, Ipc/Visits what those threads change
--                 between two events, and Ipc/Deadline the deadline of a question
--   Fanotify      the event handlers and, in Fanotify/Loop, the event loop; Fanotify/Mounts has the
--                 marks on the mounts, Fanotify/SharedLibrary is_shared_library, Fanotify/Policy the
--                 policy that the handlers implement, Fanotify/Always what every event keeps, and
--                 Fanotify/Ready, Fanotify/Returns, Fanotify/Buffer, Fanotify/Remember,
--                 Fanotify/Forever and Fanotify/Statistics what holds between events, Fanotify/Known
--                 the handlers on a known file, Fanotify/Enrolled what stays in the database;
--                 Fanotify/Deaf is a daemon that no GUI reaches, and Fanotify/Settled
--                 with Settled/Rounds the list of verdicts that the database determines
--   Gui           the callbacks of the GUI on the record Gui; Gui/Display has the texts of the labels
--                 and the dialog, Gui/Reconnect the callbacks as a step relation with what holds in
--                 every order of them, Gui/Leak and Gui/Labels more about it, and Gui/Answers and
--                 Gui/Unheard the way from a button to the daemon's decision
--   Main          main: the start, the initial scan, the event loop and the release; Main/System has
--                 create_directories and daemonize, Main/Prepared and Main/Begin what a start gives to
--                 the event loop, Main/Release, Main/Failure and Main/Report what holds when main
--                 ends, Main/Scanned the database that a start leaves, Main/Restart two runs on one
--                 database, Main/Background the daemon without --foreground, Main/Enforcement the
--                 verdicts of a daemon that does not learn, and Main/Signals setup_signals and
--                 signal_handler
--   Tests         runs on concrete inputs
--
-- State, failures and bounds. The answers of the operating system and of libc (reads, malloc, time,
-- the replies that arrive in time) are arguments or fields of an event, so each function is total
-- and its failures are values; counters wrap at their width (32 or 64 bits), an `int` product or a
-- number that atoi reads is cut to 32 bits, and buffers cut at their size. A call that waits for
-- ever, which ipc_request_permission does without a positive timeout when no reply comes, is
-- `none`. Loops recur on the list, the text or the number of slots that they walk. Only the walks
-- of Cache/Cells and the digits of a number take fuel: one step more than the chain has cells is
-- enough for the first, in a history one more for each call, and the number itself for the second.
-- The allocator of Cache/Cells/Heap is the sequence of addresses that malloc gives; what is asked
-- of it is that none of them is in use. The bytes of Protocol/Layout are those of a little-endian
-- 64-bit host, where lexec_exec_request_t takes 12368 bytes. The daemon uses the cache and the
-- database and asks the GUI from one thread, so each operation of these is one step and one request
-- is pending at a time; the threads that accept the GUI and read its replies act between these
-- steps, as the field `visits` of an event says, and while a question waits, as its `replies` say.
--
-- Not modelled: the layout of the GTK widgets and GTK's own main loop; logging, the help text, the
-- printing of the configuration, and the scripts.
pub mod Base
pub mod Hash
pub mod Whitelist
pub mod Cache
pub mod Config
pub mod Protocol
pub mod Ipc
pub mod Fanotify
pub mod Gui
pub mod Main
mod Tests
