-- ===== src/Limiter/Counting.antt =====
-- What one call of the limiters does, through what a caller can see of an entry: the hits that
-- still count. Deleting expired entries is not visible there.
use authpad.Prelude.{
  ℕ, ◌+◌, ◌≤◌, ◌≡◌, refl, ap, ◌∙◌, false, Option, none, some, not, leb, ◌==◌, if◌then◌else◌, Text,
  text_eq, arith, ◌≢◌, Bool-cases, inl, inr,
}
use authpad.Prelude.Dict.{
  lookup, HasUniqueKeys, kept, lookup-insert, lookup-retain, insert-HasUniqueKeys,
  retain-HasUniqueKeys,
}
use authpad.Limiter.{Entry, Limiter, after, sweep, current, allow}

-- The entry of a key that has not expired.
abbrev pub live_entry : ℕ → Option Entry → Option Entry
live_entry now = kept (λ e. not (after now e.reset))

unfoldable pub live : Limiter → Text → ℕ → Option Entry
live l key now = live_entry now (lookup key l.entries)

abbrev pub hits_of : Option Entry → ℕ
hits_of none = 0
hits_of (some e) = e.hits

live_entry-kept :
    (now now' : ℕ) (o : Option Entry)
    → now ≤ now'
    → live_entry now' (live_entry now o) ≡ live_entry now' o
live_entry-kept now now' none h = refl
live_entry-kept now now' (some e) h = ground arith

-- A sweep is not visible, then or later.
pub live-sweep :
    (l : Limiter) (now now' window : ℕ) (key : Text)
    → HasUniqueKeys l.entries
    → now ≤ now'
    → live (sweep l now window) key now' ≡ live l key now'
unfolding live sweep
live-sweep l now now' window key h le = ground (
  arith,
  lookup-retain (λ (e : Entry). not (after now e.reset)) key l.entries h,
  live_entry-kept now now' (lookup key l.entries) le,
)

sweep-HasUniqueKeys :
    (l : Limiter) (now window : ℕ)
    → HasUniqueKeys l.entries
    → HasUniqueKeys (sweep l now window).entries
unfolding sweep
sweep-HasUniqueKeys l now window h = elim (Bool-cases (after now l.sweep_at)) [
  | inl due ↦ rw due (retain-HasUniqueKeys _ l.entries h)
  | inr early ↦ rw early h
]

live-sweep_self :
    (l : Limiter) (now window : ℕ) (key : Text)
    → HasUniqueKeys l.entries
    → live_entry now (lookup key (sweep l now window).entries) ≡ live l key now
unfolding live
live-sweep_self l now window key h = live-sweep l now now window key h (omega arith)

pub allow-HasUniqueKeys :
    (l : Limiter) (key : Text) (limit window now : ℕ)
    → HasUniqueKeys l.entries
    → HasUniqueKeys (allow l key limit window now).0.entries
unfolding allow
allow-HasUniqueKeys l key limit window now h = elim (Bool-cases (limit == 0)) [
  | inl off ↦ rw off h
  | inr on ↦ rw on (insert-HasUniqueKeys key _ _ (sweep-HasUniqueKeys l now window h))
]

current-live :
    (o : Option Entry) (now window : ℕ)
    → current o now window ≡ current (live_entry now o) now window
unfolding current
current-live none now window = refl
current-live (some e) now window = ground arith

-- The entry that a call leaves for its key, and for the others.
pub live-allow :
    (l : Limiter) (key other : Text) (limit window now now' : ℕ)
    → HasUniqueKeys l.entries
    → now ≤ now'
    → limit ≢ 0
    → live (allow l key limit window now).0 other now' ≡ (
        if text_eq key other
        then live_entry now'
            (some (let e = current (live l key now) now window in record e { hits = e.hits + 1 }))
        else live l other now')
unfolding allow live
live-allow l key other limit window now now' h le on =
    let counted : (limit == 0) ≡ false = ground arith in
    let same_entry : current (lookup key (sweep l now window).entries) now window
        ≡ current (live_entry now (lookup key l.entries)) now window =
      current-live _ now window
      ∙ ap (λ o. current o now window) (live-sweep_self l now window key h) in
    rw (counted, lookup-insert, same_entry)
      (elim (Bool-cases (text_eq key other)) [
        | inl same ↦ rw same
        | inr differs ↦ rw differs (live-sweep l now now' window other h le)
      ])

current-hits :
    (o : Option Entry) (now window : ℕ) → (current o now window).hits ≡ hits_of (live_entry now o)
unfolding current
current-hits none now window = refl
current-hits (some e) now window = ground arith

-- The verdict of a call depends on the hits that still count, and on nothing else in the state.
pub allow-verdict :
    (l : Limiter) (key : Text) (limit window now : ℕ)
    → HasUniqueKeys l.entries
    → limit ≢ 0
    → (allow l key limit window now).1 ≡ leb (hits_of (live l key now) + 1) limit
unfolding allow
allow-verdict l key limit window now h on =
    let counted : (limit == 0) ≡ false = ground arith in
    rw (counted, current-hits)
      (ap (λ o. leb (hits_of o + 1) limit) (live-sweep_self l now window key h))
