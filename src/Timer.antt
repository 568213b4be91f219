-- ===== src/Timer.antt =====
-- src/timer.c, for `struct timespec` with times that are not negative. The source computes with the
-- `long double` constant BILLION; on these numbers that is exact. A `long` is its 64-bit pattern.
pub mod Adding
use vlbi_streamer.Base.{
  ℕ, zero, suc, ◌+◌, ◌-◌, ◌*◌, ◌/◌, ◌%◌, ◌^◌, leb, if◌then◌else◌, ℤ, pos, negsuc,
}

pub record Timespec : Type 0 where
  pub tv_sec : ℕ
  pub tv_nsec : ℕ

abbrev pub billion : ℕ
billion = 1000000000

-- `nanodiff`
pub nanodiff : Timespec → Timespec → ℕ
nanodiff start end =
    let seconds = (end.tv_sec + (2 ^ 64 - start.tv_sec)) % 2 ^ 64 in
    let nanos = (end.tv_nsec + (2 ^ 64 - start.tv_nsec)) % 2 ^ 64 in
    (seconds * billion + nanos) % 2 ^ 64

-- `nanoadd`: at most one second is carried.
pub nanoadd : Timespec → ℕ → Timespec
nanoadd datime nanos_to_add =
    if leb billion (datime.tv_nsec + nanos_to_add)
    then record { tv_sec = datime.tv_sec + 1; tv_nsec = datime.tv_nsec + nanos_to_add - billion }
    else record { tv_sec = datime.tv_sec; tv_nsec = datime.tv_nsec + nanos_to_add }

-- `zeroandadd`
pub zeroandadd : ℕ → Timespec
unfolding nanoadd
zeroandadd nanos_to_add = nanoadd (record { tv_sec = 0; tv_nsec = 0 }) nanos_to_add

abbrev pub negated : ℕ → ℤ
negated zero = pos 0
negated (suc n) = negsuc n

abbrev pub in_nanos : Timespec → ℕ
in_nanos t = t.tv_sec * billion + t.tv_nsec

-- `get_sec_diff`: the quotient of nanoseconds is no integer, so the sum is cut off to whole seconds
-- towards 0 at the end.
unfoldable pub get_sec_diff : Timespec → Timespec → ℤ
get_sec_diff timenow event =
    if leb (in_nanos timenow) (in_nanos event)
    then pos ((in_nanos event - in_nanos timenow) / billion)
    else negated ((in_nanos timenow - in_nanos event) / billion)
