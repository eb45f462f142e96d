-- ===== src/Prelude/Attempts.antt =====
-- Promises and exceptions: code that returns a value or throws, over a state that it changes either
-- way.
use mathlib.Core.Path.{◌≡◌, refl}
use invarail.Prelude.Strings.{Text}

-- A value, or the message of an error.
pub data Attempt (A : Type 0) : Type 0 where
  ok : A → Attempt A
  err : Text → Attempt A

-- Go on with the value, or pass the error on.
abbrev pub and_then : {S A B : Type 0} → Attempt A × S → (A → S → Attempt B × S) → Attempt B × S
and_then (err e, s) k = (err e, s)
and_then (ok v, s) k = k v s

module _ {S A B C : Type 0} where
  pub and_then_assoc :
      (e : Attempt A × S) (f : A → S → Attempt B × S) (g : B → S → Attempt C × S)
      → and_then (and_then e f) g ≡ and_then e (λ v s. and_then (f v s) g)
  and_then_assoc (err x, s) f g = refl
  and_then_assoc (ok v, s) f g = refl

pub and_then_cong :
    {S A B : Type 0} (e : Attempt A × S) (f g : A → S → Attempt B × S)
    → ((v : A) (s : S) → f v s ≡ g v s)
    → and_then e f ≡ and_then e g
and_then_cong (err x, s) f g h = refl
and_then_cong (ok v, s) f g h = h v s

-- A property of the state that both halves of a sequence keep.
pub and_then_keeps :
    {S A B : Type 0} (P : S → Type 0) (e : Attempt A × S) (k : A → S → Attempt B × S)
    → P e.1
    → ((a : A) (s : S) → P s → P (k a s).1)
    → P (and_then e k).1
and_then_keeps P (err x, s) k h next = h
and_then_keeps P (ok a, s) k h next = next a s h
