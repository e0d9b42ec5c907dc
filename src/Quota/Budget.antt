-- ===== src/Quota/Budget.antt =====
-- The budget: how many checks a window and a slice let through.
use borsa.Prelude.{◌≤◌, ℕ, List, ◌≡◌, arith, ◌∷◌, ◌<◌, true, ◌+◌, [], false, All, min, ◌-◌, length}
use borsa.Quota.{
  QuotaRuntime, QuotaConfig, Verdict, allowed, exceeded, panicked, is_hourly, reset_window,
  reset_slice, take_from_window, take_from_slice, check_slice, should_allow_call, new,
}

-- The counters keep within their allowances.
pub record IsWithin (rt : QuotaRuntime) : Type 0 where
  pub window_ok : rt.calls_made_in_window ≤ rt.limit
  pub slice_ok : is_hourly rt.strategy ≡ true → rt.calls_made_in_slice ≤ rt.allowed_per_slice

pub reset_window-IsWithin :
    (rt : QuotaRuntime) (now : ℕ) → IsWithin rt → IsWithin (reset_window rt now)
unfolding reset_window
reset_window-IsWithin rt now v = ground (arith, v.slice_ok)

check_slice-IsWithin : (rt : QuotaRuntime) (now : ℕ) → IsWithin rt → IsWithin (check_slice rt now).1
unfolding check_slice reset_slice take_from_slice take_from_window
check_slice-IsWithin rt now v = ground (arith, v.slice_ok)

-- Every check of the quota, whatever its verdict, keeps the counters within the limit of the window
-- and, under the hourly strategy, within the allowance of the slice.
pub should_allow_call-IsWithin :
    (rt : QuotaRuntime) (now : ℕ) → IsWithin rt → IsWithin (should_allow_call rt now).1
unfolding should_allow_call
should_allow_call-IsWithin rt now v =
    ground (arith, v.slice_ok, check_slice-IsWithin _ now (reset_window-IsWithin rt now v))

new-IsWithin : (c : QuotaConfig) (now later : ℕ) → IsWithin (new c now later)
unfolding new
new-IsWithin c now later = ground arith

abbrev pub count_allowed : Verdict → ℕ
count_allowed allowed = 1
count_allowed (exceeded r t) = 0
count_allowed panicked = 0

-- Checks at the given times, one after the other: how many are allowed.
unfoldable pub granted : QuotaRuntime → List ℕ → ℕ
granted rt [] = 0
granted rt (now ∷ times) =
    count_allowed (should_allow_call rt now).0 + granted (should_allow_call rt now).1 times

-- Times that lie in the window that is open.
abbrev pub InWindow : QuotaRuntime → ℕ → Type 0
InWindow rt now = (rt.last_reset ≤ now) × (now < rt.last_reset + rt.window)

-- In the open window a check changes only the counters.
step-InWindow :
    (rt : QuotaRuntime) (now : ℕ)
    → InWindow rt now
    → let r = should_allow_call rt now in
      (r.1.last_reset ≡ rt.last_reset)
      × (r.1.window ≡ rt.window)
      × (r.1.limit ≡ rt.limit)
      × (r.1.strategy ≡ rt.strategy)
      × (r.1.calls_made_in_window ≡ rt.calls_made_in_window + count_allowed r.0)
unfolding should_allow_call reset_window check_slice reset_slice take_from_slice take_from_window
step-InWindow rt now i = ground arith

-- All the times lie in the window that is open.
abbrev pub AllInWindow : QuotaRuntime → List ℕ → Type 0
AllInWindow rt times = All (InWindow rt) times

module _ (rt rt' : QuotaRuntime) (e : rt'.last_reset ≡ rt.last_reset)
    (w : rt'.window ≡ rt.window) where
  AllInWindow-same : (times : List ℕ) → AllInWindow rt times → AllInWindow rt' times
  AllInWindow-same [] h = tt
  AllInWindow-same (now ∷ times) h = ((omega arith, omega arith), AllInWindow-same times h.1)

-- However many checks are made at times in one window, by whatever strategy, the ones allowed and
-- those made before do not pass the window's limit together.
pub granted_within_limit :
    (rt : QuotaRuntime) (times : List ℕ)
    → IsWithin rt
    → AllInWindow rt times
    → rt.calls_made_in_window + granted rt times ≤ rt.limit
unfolding granted
granted_within_limit rt [] v h = omega (arith, v.window_ok)
granted_within_limit rt (now ∷ times) v h =
    let s = step-InWindow rt now h.0 in
    omega (
      arith,
      s,
      granted_within_limit (should_allow_call rt now).1 times (should_allow_call-IsWithin rt now v)
          (AllInWindow-same rt (should_allow_call rt now).1 s.0 s.1 times h.1),
    )

step_plain :
    (rt : QuotaRuntime) (now : ℕ)
    → InWindow rt now
    → is_hourly rt.strategy ≡ false
    → count_allowed (should_allow_call rt now).0 ≡ min 1 (rt.limit - rt.calls_made_in_window)
unfolding should_allow_call reset_window check_slice take_from_window
step_plain rt now i u = ground arith

-- Without the hourly strategy, of any checks at times in one window exactly as many are allowed as
-- the window has room for, and all of them if there is room.
pub granted_exact :
    (rt : QuotaRuntime) (times : List ℕ)
    → is_hourly rt.strategy ≡ false
    → AllInWindow rt times
    → granted rt times ≡ min (length times) (rt.limit - rt.calls_made_in_window)
unfolding granted
granted_exact rt [] u h = omega arith
granted_exact rt (now ∷ times) u h =
    let s = step-InWindow rt now h.0 in
    let u' : is_hourly (should_allow_call rt now).1.strategy ≡ false = rw s.3 u in
    omega (
      arith,
      s,
      step_plain rt now h.0 u,
      granted_exact (should_allow_call rt now).1 times u'
          (AllInWindow-same rt (should_allow_call rt now).1 s.0 s.1 times h.1),
    )

-- Times that lie in the open slice, whatever windows end in it.
abbrev pub InSlice : QuotaRuntime → ℕ → Type 0
InSlice rt now = (rt.slice_start ≤ now) × (now < rt.slice_start + rt.slice_duration)

-- The end of a window leaves the slice as it is.
step-InSlice :
    (rt : QuotaRuntime) (now : ℕ)
    → InSlice rt now
    → is_hourly rt.strategy ≡ true
    → let r = should_allow_call rt now in
      (r.1.slice_start ≡ rt.slice_start)
      × (r.1.slice_duration ≡ rt.slice_duration)
      × (r.1.allowed_per_slice ≡ rt.allowed_per_slice)
      × (r.1.strategy ≡ rt.strategy)
      × (r.1.calls_made_in_slice ≡ rt.calls_made_in_slice + count_allowed r.0)
unfolding should_allow_call reset_window check_slice reset_slice take_from_slice take_from_window
step-InSlice rt now i u = ground arith

module _ (rt rt' : QuotaRuntime) (s : rt'.slice_start ≡ rt.slice_start)
    (d : rt'.slice_duration ≡ rt.slice_duration) where
  AllInSlice-same : (times : List ℕ) → All (InSlice rt) times → All (InSlice rt') times
  AllInSlice-same [] h = tt
  AllInSlice-same (now ∷ times) h = ((omega arith, omega arith), AllInSlice-same times h.1)

-- Under the hourly strategy the checks allowed at times in one slice, and those made in it before,
-- do not pass the allowance of the slice together, also where windows end within the slice.
pub granted_within_slice :
    (rt : QuotaRuntime) (times : List ℕ)
    → IsWithin rt
    → is_hourly rt.strategy ≡ true
    → All (InSlice rt) times
    → rt.calls_made_in_slice + granted rt times ≤ rt.allowed_per_slice
unfolding granted
granted_within_slice rt [] v u h = omega (arith, v.slice_ok u)
granted_within_slice rt (now ∷ times) v u h =
    let t = step-InSlice rt now h.0 u in
    let u' : is_hourly (should_allow_call rt now).1.strategy ≡ true = rw t.3 u in
    omega (
      arith,
      t,
      granted_within_slice (should_allow_call rt now).1 times (should_allow_call-IsWithin rt now v)
          u' (AllInSlice-same rt (should_allow_call rt now).1 t.0 t.1 times h.1),
    )
