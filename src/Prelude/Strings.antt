-- ===== src/Prelude/Strings.antt =====
-- JavaScript strings: lists of UTF-16 code units. Tests and methods of the language on them.
use Prim.Native.Nat.{ℕ, ◌+◌, ◌-◌, ◌/◌, ◌%◌}
use Prim.Native.Char.{code}
use Prim.Native.String.{String}
use mathlib.Core.Path.{◌≡◌, refl}
use mathlib.Core.Logic.{◌↔◌}
use mathlib.Core.Bool.{Bool, true, false, ◌&&◌, ◌||◌}
use mathlib.Core.Option.{Option, none, some}
use mathlib.Core.List.{List, [], ◌∷◌, ◌++◌, map, reverse}
use native.Mathlib.Omega.{arith}
use invarail.Prelude.Tests.{if◌then◌else◌, ltb, leb, nat_eq}

abbrev pub Text : Type 0
Text = List ℕ

-- The code units of a code point: a surrogate pair above U+FFFF.
abbrev pub units : ℕ → Text
units c =
    if ltb c 0x10000
    then c ∷ []
    else (0xd800 + (c - 0x10000) / 0x400) ∷ (0xdc00 + (c - 0x10000) % 0x400) ∷ []

-- A literal of the source.
abbrev pub text : String → Text
text String.[] = []
text (String.◌∷◌ c s) = units (code c) ++ text s

-- `a === b`
infix 50 ◌==◌
unfoldable pub ◌==◌ : Text → Text → Bool
[] == [] = true
[] == (y ∷ ys) = false
(x ∷ xs) == [] = false
(x ∷ xs) == (y ∷ ys) = nat_eq x y && xs == ys

pub eq_sound : (a b : Text) → (a == b) ≡ true → a ≡ b
unfolding ◌==◌
eq_sound [] [] h = refl
eq_sound [] (y ∷ ys) h = ground arith
eq_sound (x ∷ xs) [] h = ground arith
eq_sound (x ∷ xs) (y ∷ ys) h = ground (arith, eq_sound xs ys)

pub eq_refl : (a : Text) → (a == a) ≡ true
unfolding ◌==◌
eq_refl [] = refl
eq_refl (x ∷ xs) = ground (arith, eq_refl xs)

pub eq_iff : (a b : Text) → ((a == b) ≡ true) ↔ (a ≡ b)
eq_iff a b = (eq_sound a b, λ e. rw e (eq_refl b))

-- `xs.includes(a)`, and `new Set(xs).has(a)`
unfoldable pub includes : Text → List Text → Bool
includes a [] = false
includes a (x ∷ xs) = x == a || includes a xs

-- `s.startsWith(p)`
unfoldable pub starts_with : Text → Text → Bool
starts_with [] s = true
starts_with (c ∷ p) [] = false
starts_with (c ∷ p) (d ∷ s) = nat_eq c d && starts_with p s

-- `s.includes(p)`
unfoldable pub contains : Text → Text → Bool
unfolding starts_with
contains p [] = starts_with p []
contains p (c ∷ s) = starts_with p (c ∷ s) || contains p s

-- `s.endsWith(p)`
unfoldable pub ends_with : Text → Text → Bool
unfolding starts_with
ends_with p s = starts_with (reverse p) (reverse s)

-- White space and line ends of `trim` and of `\s`.
abbrev pub is_space : ℕ → Bool
is_space c =
    (leb 9 c && leb c 13)
    || nat_eq c 32
    || nat_eq c 0xa0
    || nat_eq c 0x1680
    || (leb 0x2000 c && leb c 0x200a)
    || nat_eq c 0x2028
    || nat_eq c 0x2029
    || nat_eq c 0x202f
    || nat_eq c 0x205f
    || nat_eq c 0x3000
    || nat_eq c 0xfeff

unfoldable pub trim_start : Text → Text
trim_start [] = []
trim_start (c ∷ s) = let rest = trim_start s in if is_space c then rest else c ∷ s

-- `s.trim()`
unfoldable pub trim : Text → Text
unfolding trim_start
trim s = reverse (trim_start (reverse (trim_start s)))

-- Case as a regular expression with the flag `i`, and no flag `u`, folds it in ASCII text.
abbrev pub lower_unit : ℕ → ℕ
lower_unit c = if leb b'A' c && leb c b'Z' then c + 32 else c

-- Case as `toLowerCase` folds it in ASCII, Latin-1 and Cyrillic; other letters keep theirs here.
abbrev lower_letter : ℕ → ℕ
lower_letter c =
    if nat_eq c 0xd7
    then c
    else if leb 0xc0 c && leb c 0xde
    then c + 32
    else if leb 0x400 c && leb c 0x40f
    then c + 80
    else if leb 0x410 c && leb c 0x42f
    then c + 32
    else lower_unit c

-- `s.toLowerCase()`
abbrev pub lower : Text → Text
lower = map lower_letter

-- A JavaScript object or `Map` with string keys, as its entries in insertion order: `m[k]`.
unfoldable pub lookup {ℓ} : {A : Type ℓ} → Text → List (Text × A) → Option A
lookup k [] = none
lookup k ((j, v) ∷ m) = if j == k then some v else lookup k m

-- `m[k] = v`: a key that is there keeps its place.
unfoldable pub assign {ℓ} : {A : Type ℓ} → Text → A → List (Text × A) → List (Text × A)
assign k v [] = (k, v) ∷ []
assign k v ((j, w) ∷ m) = if j == k then (k, v) ∷ m else (j, w) ∷ assign k v m

module _ {ℓ} {A : Type ℓ} where
  pub lookup-assign :
      (k j : Text) (v : A) (m : List (Text × A))
      → lookup j (assign k v m) ≡ (if k == j then some v else lookup j m)
  unfolding lookup assign
  lookup-assign k j v [] = refl
  lookup-assign k j v ((i, w) ∷ m) =
      ground (arith, eq_iff k j, eq_iff i k, eq_iff i j, lookup-assign k j v m)

-- What was assigned is what is looked up, and a text equals itself.
pub ruleset map_laws = (lookup-assign, eq_refl)

-- `if (s)` for a string
abbrev pub truthy : Text → Bool
truthy [] = false
truthy (c ∷ s) = true

-- `if (s)` for a string that may be undefined, with the string in the branch
abbrev pub given : Option Text → Option Text
given none = none
given (some []) = none
given (some (c ∷ s)) = some (c ∷ s)

-- `xs?.includes(a)`
abbrev pub listed : Text → Option (List Text) → Bool
listed a none = false
listed a (some xs) = includes a xs

-- `xs.join(sep)`
abbrev pub join_with : Text → List Text → Text
join_with sep [] = []
join_with sep (e ∷ []) = e
join_with sep (e ∷ f ∷ es) = e ++ (sep ++ join_with sep (f ∷ es))
