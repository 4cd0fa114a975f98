-- ===== src/Ipc/Deadline.antt =====
-- The deadline of `ipc_request_permission` in src/daemon/ipc_server.c.
use linux_anti_executable.Base.{
  ℕ, ◌+◌, ◌-◌, ◌*◌, ◌/◌, ◌%◌, ◌^◌, ◌<◌, ◌≡◌, arith, leb, if◌then◌else◌,
}

-- `struct timespec`, at a time after 1970
pub record Timespec : Type 0 where
  pub tv_sec : ℕ
  pub tv_nsec : ℕ

abbrev nanoseconds : ℕ
nanoseconds = 1000000000

-- The product `(timeout_ms % 1000) * 1000000`, which the source takes in `int`.
unfoldable pub added_nsec : ℕ → ℕ
added_nsec timeout_ms = timeout_ms % 1000 * 1000000

-- The time from the clock, put off by a positive `timeout_ms`.
unfoldable pub deadline : ℕ → Timespec → Timespec
unfolding added_nsec
deadline timeout_ms ts =
    let sec = ts.tv_sec + timeout_ms / 1000 in
    let nsec = ts.tv_nsec + added_nsec timeout_ms in
    if leb nanoseconds nsec
    then record { tv_sec = sec + 1; tv_nsec = nsec - nanoseconds }
    else record { tv_sec = sec; tv_nsec = nsec }

-- `pthread_cond_timedwait` refuses a time with more nanoseconds than this.
abbrev pub IsTime : Timespec → Type 0
IsTime ts = ts.tv_nsec < nanoseconds

abbrev pub total_nanoseconds : Timespec → ℕ
total_nanoseconds ts = ts.tv_sec * 1000000000 + ts.tv_nsec

-- For every time of the clock with fewer than 2^62 seconds and every timeout of an `int`, the deadline
-- is a time that `pthread_cond_timedwait` takes, later than the clock's by exactly the timeout; the
-- product on the way stays in the range of `int`, and the sums in that of 63 bits.
pub deadline_exact :
    (timeout_ms : ℕ) (ts : Timespec)
    → IsTime ts
    → ts.tv_sec < 2 ^ 62
    → timeout_ms < 2 ^ 31
    → let end = deadline timeout_ms ts in
      IsTime end
      × (total_nanoseconds end ≡ total_nanoseconds ts + timeout_ms * 1000000)
      × (end.tv_sec < 2 ^ 63)
      × (added_nsec timeout_ms < 2 ^ 31)
      × (ts.tv_nsec + added_nsec timeout_ms < 2 ^ 63)
unfolding deadline
deadline_exact timeout_ms ts h s t =
    (ground (arith, h), ground (arith, h), ground (arith, h), omega arith, omega (arith, h))
