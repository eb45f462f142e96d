-- ===== src/Prelude/Names.antt =====
-- Sets of names as lists: membership in what the set operations build.
use mathlib.Core.Path.{◌≡◌, refl}
use mathlib.Core.Logic.{inl, inr}
use mathlib.Core.Bool.{Bool, ◌&&◌, ◌||◌, not}
use mathlib.Core.List.{List, [], ◌∷◌, ◌++◌}
use native.Mathlib.Omega.{arith}
use invarail.Prelude.Tests.{Bool-cases}
use invarail.Prelude.Lists.{keep}
use invarail.Prelude.Strings.{Text, ◌==◌, eq_iff, includes}

-- Membership in a filtered list is membership and the test, for tests that read the text alone.
pub includes-keep :
    (p : Text → Bool) (t : Text) (xs : List Text) → includes t (keep p xs) ≡ (includes t xs && p t)
unfolding includes
includes-keep p t [] = refl
includes-keep p t (x ∷ xs) = elim (Bool-cases (x == t)) [
  | inl same ↦
      let e = (eq_iff x t).0 same in rw e (ground (arith, includes-keep p t xs, eq_iff t t))
  | inr other ↦ ground (arith, includes-keep p t xs)
]

pub includes-append :
    (t : Text) (xs ys : List Text) → includes t (xs ++ ys) ≡ (includes t xs || includes t ys)
unfolding includes
includes-append t [] ys = refl
includes-append t (x ∷ xs) ys = ground (arith, includes-append t xs ys)

-- `set.delete(t)`
abbrev pub delete_name : Text → List Text → List Text
delete_name t set = keep (λ x. not (x == t)) set

pub includes-delete_name :
    (u t : Text) (xs : List Text) → includes u (delete_name t xs) ≡ (includes u xs && not (u == t))
includes-delete_name u t xs = includes-keep (λ x. not (x == t)) u xs
