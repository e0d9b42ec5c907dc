-- ===== src/Quota/Windows.antt =====
-- Windows and slices stay on their boundaries, and a check says how long to wait for the next one.
use borsa.Prelude.{ℕ, ◌≤◌, ◌≡◌, ◌/◌, ◌-◌, arith}
use borsa.Quota.{QuotaRuntime, u64_max, reset_window}

-- A count of nanoseconds that fits 64 bits.
abbrev pub Fits : ℕ → Type 0
Fits n = n ≤ u64_max

pub reset_window_fields :
    (rt : QuotaRuntime) (now : ℕ)
    → ((reset_window rt now).window ≡ rt.window)
      × ((reset_window rt now).limit ≡ rt.limit)
      × ((reset_window rt now).strategy ≡ rt.strategy)
      × ((reset_window rt now).slice_duration ≡ rt.slice_duration)
      × ((reset_window rt now).allowed_per_slice ≡ rt.allowed_per_slice)
      × ((reset_window rt now).slice_start ≡ rt.slice_start)
      × ((reset_window rt now).calls_made_in_slice ≡ rt.calls_made_in_slice)
unfolding reset_window
reset_window_fields rt now = ground arith

-- The boundary of a period moves by whole periods, and the present lies in the period after it.
module _ (rt : QuotaRuntime) (now : ℕ) (f : Fits (now - rt.last_reset))
    (s : rt.last_reset ≤ now) where
  abbrev windows_passed : ℕ
  windows_passed = (now - rt.last_reset) / rt.window
