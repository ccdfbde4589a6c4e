-- ===== src/Limiter.antt =====
-- internal/security/window_limiter.go: the fixed-window limiters. Instants and durations are
-- natural numbers of nanoseconds; a limit below zero behaves as the limit zero does. A window is not
-- negative: internal/service gives a minute, or a setting that is replaced where it is not positive.
use authpad.Prelude.{
  ℕ, suc, ◌+◌, Bool, true, false, Option, none, some, [], not, ltb, leb, ◌==◌, if◌then◌else◌, Text,
  codes, ◌++◌, ◌&&◌,
}
use authpad.Prelude.Dict.{Dict, lookup, insert, retain}
pub mod Counting
pub mod Window

-- `windowEntry`
pub record Entry : Type 0 where
  pub hits : ℕ
  pub reset : ℕ

-- `MemoryWindowLimiter`, without its mutex (a call is one step) and its clock (`now` is an argument).
pub record Limiter : Type 0 where
  pub entries : Dict Entry
  pub sweep_at : ℕ

-- `NewMemoryWindowLimiter`
abbrev pub new_limiter : Limiter
new_limiter = record { entries = []; sweep_at = 0 }

-- `now.After(t)`
abbrev pub after : ℕ → ℕ → Bool
after now t = ltb t now

-- The deletion of expired entries at most once in a window.
unfoldable pub sweep : Limiter → ℕ → ℕ → Limiter
sweep l now window =
    if after now l.sweep_at
    then record {
      entries = retain (λ e. not (after now e.reset)) l.entries;
      sweep_at = now + window;
    }
    else l

-- The entry that this hit is counted in: a new one if there is none, or if it has expired.
unfoldable pub current : Option Entry → ℕ → ℕ → Entry
current none now window = record { hits = 0; reset = now + window }
current (some e) now window =
    if after now e.reset then record { hits = 0; reset = now + window } else e

-- `MemoryWindowLimiter.Allow`
unfoldable pub allow : Limiter → Text → ℕ → ℕ → ℕ → Limiter × Bool
unfolding sweep current
allow l key limit window now =
    if limit == 0
    then (l, true)
    else let swept = sweep l now window in
      let e = current (lookup key swept.entries) now window in
      let hit = record e { hits = e.hits + 1 } in
      (record swept { entries = insert key hit swept.entries }, leb hit.hits limit)

-- The commands of the Redis client that the limiter sends, on a server of the caller's choice:
-- `incr` returns nothing when the command fails.
pub record Redis (S : Type 0) : Type 0 where
  pub incr : S → Text → S × Option ℕ
  pub expire : S → Text → ℕ → S

-- `RedisWindowLimiter.Allow`
unfoldable pub redis_allow : {S : Type 0} → Redis S → S → Text → ℕ → ℕ → S × Bool
redis_allow r s key limit window =
    if limit == 0
    then (s, true)
    else let k = codes "ratelimit:" ++ key in
      let (s', n) = r.incr s k in
      elim n [
        | none ↦ (s', true)
        | some n ↦ (if n == 1 then r.expire s' k window else s', leb n limit)
      ]
