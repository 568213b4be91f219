-- ===== src/Timer/Adding.antt =====
-- src/timer.c: what is added to a time, and the difference that it makes.
use vlbi_streamer.Base.{ℕ, ◌+◌, ◌*◌, ◌^◌, ◌≤◌, ◌<◌, ◌≡◌, ◌⊎◌, arith}
use vlbi_streamer.Timer.{Timespec, billion, nanodiff, nanoadd}

-- nanoadd adds exactly its nanoseconds to a time with nanoseconds below a second, and the
-- nanoseconds stay below a second, unless they and the number make two seconds or more.
pub nanoadd_lem :
    (t : Timespec) (nanos : ℕ)
    → t.tv_nsec < billion
    → let t' = nanoadd t nanos in
      (t'.tv_sec * billion + t'.tv_nsec ≡ t.tv_sec * billion + t.tv_nsec + nanos)
      × ((t'.tv_nsec < billion) ⊎ (2 * billion ≤ t.tv_nsec + nanos))
unfolding nanoadd
nanoadd_lem t nanos h = ground arith

-- The difference in nanoseconds between a time and the same time with nanoseconds added is the
-- number that was added. The nanoseconds of the time are below a second, and its seconds and the
-- number are below 2^63.
pub nanodiff-nanoadd :
    (t : Timespec) (nanos : ℕ)
    → t.tv_nsec < billion
    → t.tv_sec + 1 < 2 ^ 63
    → nanos < 2 ^ 63
    → nanodiff t (nanoadd t nanos) ≡ nanos
unfolding nanoadd nanodiff
nanodiff-nanoadd t nanos h s n = ground arith
