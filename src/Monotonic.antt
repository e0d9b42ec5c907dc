-- ===== src/Monotonic.antt =====
-- borsa/src/router/streaming/filters.rs: the gate that drops updates older than the last one of their
-- symbol. The map behind the mutex is an association list, one call at a time; `Instant::now()` is
-- an argument, instants and time stamps are numbers, and `duration_since` stops at zero. A round of
-- the task that forgets old entries is an operation of its own.
pub mod InOrder
use borsa.Prelude.{string_eq, String}
use borsa.Prelude.{
  ℕ, String, sym, Bool, true, false, Option, none, some, List, [], ◌∷◌, ltb, if◌then◌else◌, leb,
  keep_if, ◌-◌, ◌*◌,
}
use borsa.Prelude.Maps.{get, insert, remove}

pub record GateEntry : Type 0 where
  pub prev_ts : ℕ
  pub last_seen : ℕ

abbrev pub GateMap : Type 0
GateMap = List (String × GateEntry)

-- The answer and the entry after it.
pub judge : Option GateEntry → (ts now : ℕ) → Bool × GateEntry
judge none ts now = (true, record { prev_ts = ts; last_seen = now })
judge (some entry) ts now =
    if ltb ts entry.prev_ts then (false, record entry { last_seen = now }) else (
      true,
      record { prev_ts = if ltb entry.prev_ts ts then ts else entry.prev_ts; last_seen = now },
    )

unfoldable pub allow : GateMap → String → (ts now : ℕ) → Bool × GateMap
unfolding judge
allow m key ts now = ((judge (get m key) ts now).0, insert key (judge (get m key) ts now).1 m)

-- A day, in the nanoseconds of an instant.
abbrev pub entry_ttl : ℕ
entry_ttl = 24 * 60 * 60 * 1_000_000_000

-- `retain` of the entries that were seen within a day: one round of the reaper.
unfoldable pub reap : GateMap → (now : ℕ) → GateMap
reap m now = keep_if (λ x. leb (now - x.1.last_seen) entry_ttl) m

unfoldable pub reset_symbols : GateMap → List String → GateMap
reset_symbols m [] = m
reset_symbols m (name ∷ symbols) = reset_symbols (remove name m) symbols
