-- ===== src/Monotonic/InOrder.antt =====
-- What the gate admits of one symbol depends on that symbol's updates alone.
use borsa.Prelude.{
  string_eq, String, true, false, some, none, [], ◌∷◌, ℕ, ◌+◌, ◌-◌, ◌≡◌, refl, ap, ◌∙◌, Bool, ◌&&◌,
  Option, List, arith, ltb, leb, if◌then◌else◌, eq, eq_iff_path, any,
}
use borsa.Prelude.Maps.{get, insert, remove, get-insert, get-remove}
use borsa.Monotonic.{GateEntry, GateMap, judge, allow, reap, reset_symbols, entry_ttl}

pub data GateCall : Type 0 where
  update : String → (ts now : ℕ) → GateCall
  reset : List String → GateCall
  reaped : (now : ℕ) → GateCall

-- The stamps that the gate admits for a symbol in a sequence of calls and rounds of the reaper.
unfoldable pub admitted : String → GateMap → List GateCall → List ℕ
unfolding allow reset_symbols reap
admitted key m [] = []
admitted key m (update name ts now ∷ calls) =
    let rest = admitted key (allow m name ts now).1 calls in
    if eq name key && (allow m name ts now).0 then ts ∷ rest else rest
admitted key m (reset symbols ∷ calls) = admitted key (reset_symbols m symbols) calls
admitted key m (reaped now ∷ calls) = admitted key (reap m now) calls

-- What is known of a symbol: the latest stamp admitted, and when the last update came.
abbrev pub Mark : Type 0
Mark = Option (ℕ × ℕ)

-- An update is in order if it is not earlier than the latest one.
abbrev pub follows : Mark → ℕ → Bool
follows none ts = true
follows (some (latest, seen)) ts = leb latest ts

abbrev pub seen_again : Mark → ℕ → Mark
seen_again none now = none
seen_again (some (latest, seen)) now = some (latest, now)

-- What is left of it at an instant when nothing was seen for more than a day is nothing.
abbrev pub still_known : Mark → ℕ → Mark
still_known none now = none
still_known (some (latest, seen)) now =
    if ltb (seen + entry_ttl) now then none else some (latest, seen)

abbrev pub reset_hits : String → List String → Bool
reset_hits key symbols = any (λ name. eq name key) symbols

-- The stamps of a symbol's updates that are not earlier than the last one kept, which is forgotten
-- when the symbol is reset, and when a round of the reaper comes more than a day after the symbol's
-- last update.
abbrev pub running_latest : String → Mark → List GateCall → List ℕ
running_latest key mark [] = []
running_latest key mark (reset symbols ∷ calls) =
    running_latest key (if reset_hits key symbols then none else mark) calls
running_latest key mark (reaped now ∷ calls) = running_latest key (still_known mark now) calls
running_latest key mark (update name ts now ∷ calls) =
    let kept = ts ∷ running_latest key (some (ts, now)) calls in
    let late = running_latest key (seen_again mark now) calls in
    let rest = running_latest key mark calls in
    if eq name key then if follows mark ts then kept else late else rest

abbrev pub mark_of : Option GateEntry → Mark
mark_of none = none
mark_of (some entry) = some (entry.prev_ts, entry.last_seen)

-- No symbol has two entries.
abbrev pub IsKeyed : GateMap → Type 0
IsKeyed [] = Unit
IsKeyed (x ∷ m) = (get m x.0 ≡ none) × IsKeyed m

insert-IsKeyed : (k : String) (v : GateEntry) (m : GateMap) → IsKeyed m → IsKeyed (insert k v m)
unfolding insert get
insert-IsKeyed k v [] h = (refl, tt)
insert-IsKeyed k v ((j, w) ∷ m) h =
    ground (arith, eq_iff_path j k, eq_iff_path k j, get-insert k v m j, insert-IsKeyed k v m h.1)

remove-IsKeyed : (k : String) (m : GateMap) → IsKeyed m → IsKeyed (remove k m)
unfolding remove
remove-IsKeyed k [] h = tt
remove-IsKeyed k ((j, w) ∷ m) h = ground (arith, get-remove k m j, remove-IsKeyed k m h.1)

reset_symbols-IsKeyed :
    (m : GateMap) (symbols : List String) → IsKeyed m → IsKeyed (reset_symbols m symbols)
unfolding reset_symbols
reset_symbols-IsKeyed m [] h = h
reset_symbols-IsKeyed m (name ∷ symbols) h =
    reset_symbols-IsKeyed (remove name m) symbols (remove-IsKeyed name m h)

-- An entry that a round of the reaper may leave.
abbrev left_at : ℕ → Option GateEntry → Option GateEntry
left_at now none = none
left_at now (some entry) = if leb (now - entry.last_seen) entry_ttl then some entry else none

get-reap :
    (m : GateMap) (now : ℕ) (key : String)
    → IsKeyed m
    → get (reap m now) key ≡ left_at now (get m key)
unfolding reap get
get-reap [] now key h = refl
get-reap ((j, w) ∷ m) now key h = ground (arith, eq_iff_path j key, get-reap m now key h.1, h.0)

reap-IsKeyed : (m : GateMap) (now : ℕ) → IsKeyed m → IsKeyed (reap m now)
unfolding reap
reap-IsKeyed [] now h = tt
reap-IsKeyed ((j, w) ∷ m) now h = ground (arith, get-reap m now j h.1, h.0, reap-IsKeyed m now h.1)

left_at-still_known :
    (now : ℕ) (o : Option GateEntry) → mark_of (left_at now o) ≡ still_known (mark_of o) now
left_at-still_known now none = refl
left_at-still_known now (some entry) = ground arith

get-reset_symbols :
    (m : GateMap) (symbols : List String) (key : String)
    → get (reset_symbols m symbols) key ≡ (if reset_hits key symbols then none else get m key)
unfolding reset_symbols
get-reset_symbols m [] key = refl
get-reset_symbols m (name ∷ symbols) key =
    ground (arith, get-reset_symbols (remove name m) symbols key, get-remove name m key)

judge-follows :
    (before : Option GateEntry) (ts now : ℕ)
    → ((judge before ts now).0 ≡ follows (mark_of before) ts)
      × (mark_of (some (judge before ts now).1) ≡ (
          if follows (mark_of before) ts then some (ts, now) else seen_again (mark_of before) now))
unfolding judge
judge-follows none ts now = (refl, refl)
judge-follows (some entry) ts now = ground arith

mark_of-if :
    (b : Bool) (o : Option GateEntry)
    → mark_of (if b then none else o) ≡ (if b then none else mark_of o)
mark_of-if true o = refl
mark_of-if false o = refl

get-allow :
    (m : GateMap) (name : String) (ts now : ℕ) (key : String)
    → get (allow m name ts now).1 key
      ≡ (if eq name key then some (judge (get m name) ts now).1 else get m key)
unfolding allow
get-allow m name ts now key = get-insert name _ m key

allow-IsKeyed :
    (m : GateMap) (name : String) (ts now : ℕ) → IsKeyed m → IsKeyed (allow m name ts now).1
unfolding allow
allow-IsKeyed m name ts now h = insert-IsKeyed name _ m h

same_name : (m : GateMap) (name key : String) → eq name key ≡ true → get m name ≡ get m key
same_name m name key h = ap (get m) ((eq_iff_path name key).0 h)

-- Of a map with one entry for each symbol, the gate admits exactly the updates of a symbol that are
-- not earlier than the latest one admitted since the symbol was last forgotten: by a reset, or by a
-- round of the reaper more than a day after its last update, admitted or not. The updates and resets
-- of other symbols do not matter.
pub admitted-running_latest :
    (key : String) (m : GateMap) (calls : List GateCall)
    → IsKeyed m
    → admitted key m calls ≡ running_latest key (mark_of (get m key)) calls
unfolding admitted
admitted-running_latest key m [] k = refl
admitted-running_latest key m (reset symbols ∷ calls) k =
    admitted-running_latest key (reset_symbols m symbols) calls (reset_symbols-IsKeyed m symbols k)
    ∙ ap (λ mark. running_latest key mark calls)
        (ap mark_of (get-reset_symbols m symbols key)
          ∙ mark_of-if (reset_hits key symbols) (get m key))
admitted-running_latest key m (reaped now ∷ calls) k =
    admitted-running_latest key (reap m now) calls (reap-IsKeyed m now k)
    ∙ ap (λ mark. running_latest key mark calls)
        (ap mark_of (get-reap m now key k) ∙ left_at-still_known now (get m key))
admitted-running_latest key m (update name ts now ∷ calls) k = ground (
  arith,
  admitted-running_latest key (allow m name ts now).1 calls (allow-IsKeyed m name ts now k),
  get-allow m name ts now key,
  judge-follows (get m name) ts now,
  same_name m name key,
)
