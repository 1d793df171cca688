-- ===== src/Cllib/Clock.antt =====
-- The clock of cllib/clcommon.cpp: `gettimeofday` for Windows, `current_msecs` and `elapsed_msecs`.
-- What the system answers is an argument.
use u_clbench.Base.{ℕ, ◌+◌, ◌-◌, ◌*◌, ◌/◌, ◌%◌, ◌^◌, ◌<◌, ◌≤◌, ◌≡◌, arith}

-- `struct timeval`, with a time that is not negative
pub record Timeval : Type 0 where
  pub tv_sec : ℕ
  pub tv_usec : ℕ

-- `DELTA_EPOCH_IN_MICROSECS`
abbrev pub delta_epoch_in_microsecs : ℕ
delta_epoch_in_microsecs = 11644473600000000

-- `gettimeofday`, from both halves of the file time; `long` has 32 bits there, and the seconds
-- are read without a sign
unfoldable pub gettimeofday : ℕ → ℕ → Timeval
gettimeofday high low =
    let tmpres = ((high * 2 ^ 32 + low) / 10 + 2 ^ 64 - delta_epoch_in_microsecs) % 2 ^ 64 in
    record { tv_sec = tmpres / 1000000 % 2 ^ 32; tv_usec = tmpres % 1000000 }

-- with `UNIX`: `unsigned long` and `time_t` have 64 bits
unfoldable pub current_msecs : Timeval → ℕ
current_msecs current = (current.tv_sec * 1000 + current.tv_usec / 1000) % 2 ^ 64

unfoldable pub elapsed_msecs : Timeval → ℕ → ℕ
unfolding current_msecs
elapsed_msecs current start_msecs = (current_msecs current + 2 ^ 64 - start_msecs) % 2 ^ 64

-- a time in microseconds
abbrev pub microsecs : Timeval → ℕ
microsecs t = t.tv_sec * 1000000 + t.tv_usec

-- Between two times, each with less than a million microseconds, the first not behind the second
-- and the second within the range of the counter, the milliseconds reported are the whole ones of
-- the second time less the whole ones of the first: they miss the time passed by less than one.
pub elapsed_msecs_lem :
    (first second : Timeval)
    → first.tv_usec < 1000000
    → second.tv_usec < 1000000
    → microsecs first ≤ microsecs second
    → second.tv_sec < 2 ^ 54
    → (elapsed_msecs second (current_msecs first)
        ≡ microsecs second / 1000 - microsecs first / 1000)
      × (microsecs second
          < microsecs first + (elapsed_msecs second (current_msecs first) + 1) * 1000)
      × (microsecs first + elapsed_msecs second (current_msecs first) * 1000
          < microsecs second + 1000)
unfolding elapsed_msecs
elapsed_msecs_lem first second a b c d = (omega arith, omega arith, omega arith)

-- For a file time behind the start of 1970 and less than 2 ^ 32 seconds later the seconds and
-- microseconds returned are the microseconds since then, with less than a million microseconds.
pub gettimeofday_lem :
    (high low : ℕ)
    → high < 2 ^ 32
    → low < 2 ^ 32
    → delta_epoch_in_microsecs ≤ (high * 2 ^ 32 + low) / 10
    → (high * 2 ^ 32 + low) / 10 < delta_epoch_in_microsecs + 2 ^ 32 * 1000000
    → (microsecs (gettimeofday high low) + delta_epoch_in_microsecs ≡ (high * 2 ^ 32 + low) / 10)
      × ((gettimeofday high low).tv_usec < 1000000)
unfolding gettimeofday
gettimeofday_lem high low a b c d = (omega arith, omega arith)
