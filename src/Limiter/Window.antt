-- ===== src/Limiter/Window.antt =====
-- The promise of a fixed window: of the calls for one key that fall in a window which has no hit
-- yet, exactly the first `limit` are allowed, whatever the calls for other keys.
use authpad.Prelude.{
  ℕ, ◌+◌, ◌-◌, ◌≤◌, ◌≡◌, ◌≢◌, refl, sym, ap, true, false, ◌∙◌, ◌==◌, Option, none, some, List, [],
  ◌∷◌, if◌then◌else◌, Text, text_eq, text_eq_iff, arith, Bool-cases, inl, inr,
}
use Prim.Native.Nat.{min}
use mathlib.Core.Path.{subst}
use authpad.Prelude.Dict.{HasUniqueKeys, lookup}
use authpad.Limiter.{Entry, Limiter, current, allow}
use authpad.Limiter.Counting.{
  live, live_entry, hits_of, live-allow, allow-verdict, allow-HasUniqueKeys,
}

-- A call of `Allow`, with the instant at which it reads the clock.
pub record Call : Type 0 where
  pub key : Text
  pub limit : ℕ
  pub window : ℕ
  pub now : ℕ

abbrev pub serve : Limiter → Call → Limiter
serve l c = (allow l c.key c.limit c.window c.now).0

-- How many of the calls for `key` are allowed.
pub allowed : Text → Limiter → List Call → ℕ
allowed key l [] = 0
allowed key l (c ∷ cs) =
    (if text_eq c.key key then (if (allow l c.key c.limit c.window c.now).1 then 1 else 0) else 0)
    + allowed key (serve l c) cs

pub asked : Text → List Call → ℕ
asked key [] = 0
asked key (c ∷ cs) = (if text_eq c.key key then 1 else 0) + asked key cs

-- The calls run in the order of their instants, from `start` to `end`, and those for `key` have
-- this limit and a window that lasts from `start` to `end` at least.
abbrev pub InWindow : Text → ℕ → ℕ → ℕ → List Call → Type 0
InWindow key limit start end [] = Unit
InWindow key limit start end (c ∷ cs) =
    (start ≤ c.now)
    × (c.now ≤ end)
    × (text_eq c.key key ≡ true → (c.limit ≡ limit) × (end ≤ c.now + c.window))
    × InWindow key limit c.now end cs

-- An entry that counts until `end`.
abbrev LastsTo : ℕ → Option Entry → Type 0
LastsTo end none = Unit
LastsTo end (some e) = end ≤ e.reset

live-later :
    (l : Limiter) (key : Text) (start now end : ℕ)
    → start ≤ now
    → now ≤ end
    → LastsTo end (live l key start)
    → live l key now ≡ live l key start
unfolding live
live-later l key start now end a b h = later (lookup key l.entries) h
  where
    later :
        (o : Option Entry)
        → LastsTo end (live_entry start o)
        → live_entry now o ≡ live_entry start o
    later none h = refl
    later (some e) h = ground arith

-- What the entry of the key is after a call: counted once more, and lasting as long.
abbrev Counted : ℕ → ℕ → Option Entry → Type 0
Counted end hits o = (hits_of o ≡ hits) × LastsTo end o

current-Counted :
    (o : Option Entry) (now window end : ℕ)
    → now ≤ end
    → end ≤ now + window
    → LastsTo end o
    → Counted end
        (hits_of o + 1)
        (live_entry now (some (let e = current o now window in record e { hits = e.hits + 1 })))
unfolding current
current-Counted none now window end a b h = ground arith
current-Counted (some e) now window end a b h = ground arith

-- A call without a limit is allowed and leaves everything as it is.
allow_unlimited :
    (l : Limiter) (key : Text) (limit window now : ℕ)
    → (limit == 0) ≡ true
    → allow l key limit window now ≡ (l, true)
unfolding allow
allow_unlimited l key limit window now off = rw off refl

limited-Counted :
    (l : Limiter) (key : Text) (c : Call) (end : ℕ)
    → HasUniqueKeys l.entries
    → c.limit ≢ 0
    → c.now ≤ end
    → (text_eq c.key key ≡ true → end ≤ c.now + c.window)
    → LastsTo end (live l key c.now)
    → Counted end
        (hits_of (live l key c.now) + (if text_eq c.key key then 1 else 0))
        (live (serve l c) key c.now)
limited-Counted l key c end h on le lasts o =
    rw (live-allow l c.key key c.limit c.window c.now c.now h (omega arith) on)
      (elim (Bool-cases (text_eq c.key key)) [
        | inl same ↦ rw same (
            let e : c.key ≡ key = (text_eq_iff _ _).0 same in
            rw e (current-Counted (live l key c.now) c.now c.window end le (lasts same) o))
        | inr other ↦ rw other (omega arith, o)
      ])

serve-Counted :
    (l : Limiter) (key : Text) (c : Call) (end : ℕ)
    → HasUniqueKeys l.entries
    → (text_eq c.key key ≡ true → c.limit ≢ 0)
    → c.now ≤ end
    → (text_eq c.key key ≡ true → end ≤ c.now + c.window)
    → LastsTo end (live l key c.now)
    → Counted end
        (hits_of (live l key c.now) + (if text_eq c.key key then 1 else 0))
        (live (serve l c) key c.now)
serve-Counted l key c end h on le lasts o = elim (Bool-cases (c.limit == 0)) [
  | inl off ↦
      let other : text_eq c.key key ≡ false = elim (Bool-cases (text_eq c.key key)) [
        | inl same ↦ absurd (on same (ground arith))
        | inr other ↦ other
      ] in
      let still : l ≡ serve l c =
        sym (ap (λ p. p.0) (allow_unlimited l c.key c.limit c.window c.now off)) in
      rw other (
        subst (λ m. Counted end (hits_of (live l key c.now) + 0) (live m key c.now)) still
          (omega arith, o))
  | inr limited ↦ limited-Counted l key c end h (λ e. ground arith) le lasts o
]

allowed_left :
    (key : Text) (limit start end : ℕ) (l : Limiter) (cs : List Call)
    → limit ≢ 0
    → HasUniqueKeys l.entries
    → InWindow key limit start end cs
    → LastsTo end (live l key start)
    → allowed key l cs ≡ min (limit - hits_of (live l key start)) (asked key cs)
unfolding allowed asked
allowed_left key limit start end l [] set h w o = omega arith
allowed_left key limit start end l (c ∷ cs) set h (a, b, same, w) o =
    let on : text_eq c.key key ≡ true → c.limit ≢ 0 = λ mine off. set (sym (same mine).0 ∙ off) in
    let still = live-later l key start c.now end a b o in
    let lasts : LastsTo end (live l key c.now) = rw still o in
    let (counted, lasts') = serve-Counted l key c end h on b (λ e. (same e).1) lasts in
    let next : HasUniqueKeys (serve l c).entries =
      allow-HasUniqueKeys l c.key c.limit c.window c.now h in
    let rest = allowed_left key limit c.now end (serve l c) cs set next w lasts' in
    rw (rest, counted, still)
      (elim (Bool-cases (text_eq c.key key)) [
        | inl mine ↦
            let e : c.key ≡ key = (text_eq_iff _ _).0 mine in
            rw
              (
                mine,
                allow-verdict l c.key c.limit c.window c.now h (on mine),
                e,
                still,
                (same mine).0,
              )
              (ground arith)
        | inr other ↦ rw other (omega arith)
      ])

-- Where the limit is zero every call is allowed, in whatever state.
allowed_unlimited :
    (key : Text) (start end : ℕ) (l : Limiter) (cs : List Call)
    → InWindow key 0 start end cs
    → allowed key l cs ≡ asked key cs
unfolding allowed asked
allowed_unlimited key start end l [] w = refl
allowed_unlimited key start end l (c ∷ cs) (a, b, same, w) =
    rw (allowed_unlimited key c.now end (serve l c) cs w) (elim (Bool-cases (text_eq c.key key)) [
      | inl mine ↦
          rw (mine, allow_unlimited l c.key c.limit c.window c.now (ground (arith, same mine))) refl
      | inr other ↦ rw other refl
    ])

-- In a window that no hit of the key still counts in, the number of its calls that are allowed is
-- the number made or the limit, whichever is smaller, where the limit is not zero; with the limit
-- zero all of its calls are allowed. Other keys, limits and windows do not matter, the limit zero
-- included.
pub allowed-InWindow :
    (key : Text) (limit start end : ℕ) (l : Limiter) (cs : List Call)
    → HasUniqueKeys l.entries
    → InWindow key limit start end cs
    → live l key start ≡ none
    → allowed key l cs ≡ (if limit == 0 then asked key cs else min limit (asked key cs))
allowed-InWindow key limit start end l cs h w fresh = elim (Bool-cases (limit == 0)) [
  | inl off ↦
      let zero_ : limit ≡ 0 = ground arith in
      let unlimited : InWindow key 0 start end cs = rw (sym zero_) w in
      rw off (allowed_unlimited key start end l cs unlimited)
  | inr on ↦
      let lasts : LastsTo end (live l key start) = rw fresh tt in
      let left : allowed key l cs ≡ min (limit - hits_of (live l key start)) (asked key cs) =
        allowed_left key limit start end l cs (λ e. ground arith) h w lasts in
      rw on (left ∙ rw fresh (omega arith))
]
