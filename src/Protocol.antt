-- ===== src/Protocol.antt =====
-- src/common/protocol.h and the response codes of src/daemon/ipc_server.h. An enum value is its
-- pattern of 32 bits, so that a cast between the two enums keeps the number.
pub mod Layout
pub mod RoundTrip
use linux_anti_executable.Base.{ℕ, ◌-◌, ◌^◌, Bool, List}

-- `lexec_response_type_t`: what the GUI puts on the socket
abbrev pub msg_allow_once : ℕ
msg_allow_once = 100

abbrev pub msg_allow_always : ℕ
msg_allow_always = 101

abbrev pub msg_deny : ℕ
msg_deny = 102

-- `lexec_ipc_response_t`: what the daemon's switch knows
abbrev pub response_allow_once : ℕ
response_allow_once = 1

abbrev pub response_allow_always : ℕ
response_allow_always = 2

abbrev pub response_deny : ℕ
response_deny = 3

-- -1 and -2
abbrev pub response_timeout : ℕ
response_timeout = 2 ^ 32 - 1

abbrev pub response_no_client : ℕ
response_no_client = 2 ^ 32 - 2

-- `lexec_exec_request_t`
pub record ExecRequest : Type 0 where
  pub request_id : ℕ
  pub pid : ℕ
  pub uid : ℕ
  pub path : List ℕ
  pub hash : List ℕ
  pub cmdline : List ℕ
  pub parent_path : List ℕ
  pub is_shared_lib : Bool

-- `lexec_exec_response_t`
pub record ExecResponse : Type 0 where
  pub request_id : ℕ
  pub response : ℕ
