-- ===== src/Services/RateLimiter.antt =====
-- src/services/rate-limiter.ts: a sliding window of message times per user, pruned on every
-- message.
use invarail.Prelude.{
  ℕ, ◌+◌, ◌≤◌, suc, ◌≡◌, refl, Bool, List, [], ◌∷◌, ◌++◌, Text, ◌==◌, eq_iff, lookup, assign,
  lookup-assign, keep, count, length, length-append, count-append, ltb, or_else, arith,
  if◌then◌else◌,
}

abbrev pub Limits : Type 0
Limits = List (Text × List ℕ)

-- `now - t < windowMs`
abbrev pub is_recent : ℕ → ℕ → ℕ → Bool
is_recent window now t = ltb now (t + window)

-- `isLimited`
unfoldable pub is_limited : ℕ → ℕ → ℕ → Text → Limits → Bool × Limits
is_limited window max now user limits =
    let recent = keep (is_recent window now) (or_else (lookup user limits) []) ++ now ∷ [] in
    (ltb max (length recent), assign user recent limits)

-- Messages as they came, the latest first.
abbrev pub Log : Type 0
Log = List (Text × ℕ)

unfoldable pub after : ℕ → ℕ → Log → Limits
unfolding is_limited
after window max [] = []
after window max ((user, t) ∷ log) = (is_limited window max t user (after window max log)).1

-- The messages of a user in the window that ends now, counted over the whole log.
abbrev pub in_window : ℕ → ℕ → Text → Log → ℕ
in_window window now user [] = 0
in_window window now user ((u, t) ∷ log) =
    let rest = in_window window now user log in
    if u == user then (if is_recent window now t then suc rest else rest) else rest

-- The clock does not run backwards.
abbrev pub IsOrdered : ℕ → Log → Type 0
IsOrdered now [] = Unit
IsOrdered now ((u, t) ∷ log) = (t ≤ now) × IsOrdered t log

count-keep :
    (window now t : ℕ) (xs : List ℕ)
    → t ≤ now
    → count (is_recent window now) (keep (is_recent window t) xs) ≡ count (is_recent window now) xs
count-keep window now t [] h = refl
count-keep window now t (x ∷ xs) h = ground (arith, count-keep window now t xs h)

length-recent :
    (window now : ℕ) (xs : List ℕ)
    → length (keep (is_recent window now) xs) ≡ count (is_recent window now) xs
length-recent window now [] = refl
length-recent window now (x ∷ xs) = ground (arith, length-recent window now xs)

weaken : (now later : ℕ) (log : Log) → now ≤ later → IsOrdered now log → IsOrdered later log
weaken now later [] h o = tt
weaken now later ((u, t) ∷ log) h (p, o) = (omega (arith, h, p), o)

count-after :
    (window max now : ℕ) (user : Text) (log : Log)
    → IsOrdered now log
    → count (is_recent window now) (or_else (lookup user (after window max log)) [])
      ≡ in_window window now user log
unfolding after is_limited lookup
count-after window max now user [] h = refl
count-after window max now user ((u, t) ∷ log) (p, o) =
    let old = or_else (lookup u (after window max log)) [] in
    let kept = keep (is_recent window t) old in
    ground (
      arith,
      lookup-assign u user (kept ++ t ∷ []) (after window max log),
      count-append (is_recent window now) kept (t ∷ []),
      count-keep window now t old p,
      count-after window max now user log (weaken t now log p o),
      eq_iff u user,
    )

-- While the clock does not run backwards, a message is limited exactly if the user sent more than
-- the maximum within the window that ends with it, it included, whatever was pruned before.
pub is_limited_counts :
    (window max now : ℕ) (user : Text) (log : Log)
    → IsOrdered now log
    → (is_limited window max now user (after window max log)).0
      ≡ ltb max (suc (in_window window now user log))
unfolding is_limited
is_limited_counts window max now user log o =
    let old = or_else (lookup user (after window max log)) [] in
    ground (
      arith,
      length-append (keep (is_recent window now) old) (now ∷ []),
      length-recent window now old,
      count-after window max now user log o,
    )
