-- ===== src/Prelude/Sort.antt =====
-- Membership in lists, and JavaScript's stable `sort` as insertion sort.
use Prim.Native.Nat.{◌≤◌}
use mathlib.Core.Path.{◌≡◌, refl, sym, ◌∙◌}
use mathlib.Core.Logic.{◌⊎◌, inl, inr}
use mathlib.Core.Bool.{Bool, true}
use mathlib.Core.List.{List, [], ◌∷◌, ◌++◌}
use native.Mathlib.Omega.{arith}
use invarail.Prelude.Tests.{if◌then◌else◌, Bool-cases}
use invarail.Prelude.Lists.{keep, All, count}

abbrev pub In : {A : Type 0} → A → List A → Type 0
In x [] = ⊥
In x (y ∷ ys) = (x ≡ y) ⊎ In x ys

-- `xs.sort(c)`, where `less a b` says that `c(a, b)` is negative
abbrev insert_by : {A : Type 0} → (A → A → Bool) → A → List A → List A
insert_by less x [] = x ∷ []
insert_by less x (y ∷ ys) =
    let later = y ∷ insert_by less x ys in if less y x then later else x ∷ y ∷ ys

unfoldable pub sort_by : {A : Type 0} → (A → A → Bool) → List A → List A
sort_by less [] = []
sort_by less (x ∷ xs) = insert_by less x (sort_by less xs)

module _ {A : Type 0} where
  pub In-append_left : (x : A) (xs ys : List A) → In x xs → In x (xs ++ ys)
  In-append_left x [] ys h = elim h [ ]
  In-append_left x (y ∷ xs) ys (inl e) = inl e
  In-append_left x (y ∷ xs) ys (inr h) = inr (In-append_left x xs ys h)

  pub In-append_right : (x : A) (xs ys : List A) → In x ys → In x (xs ++ ys)
  In-append_right x [] ys h = h
  In-append_right x (y ∷ xs) ys h = inr (In-append_right x xs ys h)

  pub In-append_cases : (x : A) (xs ys : List A) → In x (xs ++ ys) → In x xs ⊎ In x ys
  In-append_cases x [] ys h = inr h
  In-append_cases x (y ∷ xs) ys (inl e) = inl (inl e)
  In-append_cases x (y ∷ xs) ys (inr h) = elim (In-append_cases x xs ys h) [
    | inl l ↦ inl (inr l)
    | inr r ↦ inr r
  ]

  pub In-keep : (p : A → Bool) (x : A) (xs : List A) → In x xs → p x ≡ true → In x (keep p xs)
  In-keep p x [] i h = elim i [ ]
  In-keep p x (y ∷ ys) (inl e) h = ground arith
  In-keep p x (y ∷ ys) (inr i) h = ground (arith, In-keep p x ys i h)

  pub keep-In : (p : A → Bool) (x : A) (xs : List A) → In x (keep p xs) → In x xs × (p x ≡ true)
  keep-In p x [] h = elim h [ ]
  keep-In p x (y ∷ ys) h = elim (Bool-cases (p y)) [
    | inl yes' ↦ ground (arith, keep-In p x ys)
    | inr no' ↦ ground (arith, keep-In p x ys)
  ]

  pub All-In : (P : A → Type 0) (x : A) (xs : List A) → All P xs → In x xs → P x
  All-In P x [] h i = elim i [ ]
  All-In P x (y ∷ ys) (p, h) (inl e) = ground arith
  All-In P x (y ∷ ys) (p, h) (inr i) = All-In P x ys h i

  pub In-All : (P : A → Type 0) (xs : List A) → ((x : A) → In x xs → P x) → All P xs
  In-All P [] h = tt
  In-All P (y ∷ ys) h = (h y (inl refl), In-All P ys (λ x i. h x (inr i)))

module _ {A : Type 0} (less : A → A → Bool) where
  insert_by-In : (z x : A) (xs : List A) → In z (insert_by less x xs) → (z ≡ x) ⊎ In z xs
  insert_by-In z x [] h = h
  insert_by-In z x (y ∷ ys) h = ground (arith, insert_by-In z x ys)

  pub sort_by-In : (z : A) (xs : List A) → In z (sort_by less xs) → In z xs
  unfolding sort_by
  sort_by-In z [] h = elim h [ ]
  sort_by-In z (x ∷ xs) h = elim (insert_by-In z x (sort_by less xs) h) [
    | inl e ↦ inl e
    | inr i ↦ inr (sort_by-In z xs i)
  ]

  In-insert_by_self : (x : A) (xs : List A) → In x (insert_by less x xs)
  In-insert_by_self x [] = inl refl
  In-insert_by_self x (y ∷ ys) = ground (arith, In-insert_by_self x ys)

  In-insert_by : (z x : A) (xs : List A) → In z xs → In z (insert_by less x xs)
  In-insert_by z x [] h = elim h [ ]
  In-insert_by z x (y ∷ ys) h = ground (arith, In-insert_by z x ys)

  pub In-sort_by : (z : A) (xs : List A) → In z xs → In z (sort_by less xs)
  unfolding sort_by
  In-sort_by z [] h = elim h [ ]
  In-sort_by z (x ∷ xs) (inl e) = ground (arith, In-insert_by_self x (sort_by less xs))
  In-sort_by z (x ∷ xs) (inr h) = In-insert_by z x (sort_by less xs) (In-sort_by z xs h)

  count-insert_by :
      (p : A → Bool) (x : A) (xs : List A) → count p (insert_by less x xs) ≡ count p (x ∷ xs)
  count-insert_by p x [] = refl
  count-insert_by p x (y ∷ ys) = ground (arith, count-insert_by p x ys)

  pub count-sort_by : (p : A → Bool) (xs : List A) → count p (sort_by less xs) ≡ count p xs
  unfolding sort_by
  count-sort_by p [] = refl
  count-sort_by p (x ∷ xs) =
      ground (arith, count-insert_by p x (sort_by less xs), count-sort_by p xs)

module _ {A : Type 0} (p : A → Bool) where
  pub count_pos : (x : A) (xs : List A) → In x xs → p x ≡ true → 1 ≤ count p xs
  count_pos x [] i h = elim i [ ]
  count_pos x (y ∷ ys) (inl e) h = ground arith
  count_pos x (y ∷ ys) (inr i) h = ground (arith, count_pos x ys i h)

  -- Of what stands once at most, two that are there are one.
  pub only_one :
      (x m : A) (xs : List A) → count p xs ≤ 1 → In x xs → In m xs → p x ≡ true → p m ≡ true → x ≡ m
  only_one x m [] c i j h k = elim i [ ]
  only_one x m (y ∷ ys) c (inl e) (inl f) h k = e ∙ sym f
  only_one x m (y ∷ ys) c (inl e) (inr j) h k = absurd (ground (arith, count_pos m ys j k))
  only_one x m (y ∷ ys) c (inr i) (inl f) h k = absurd (ground (arith, count_pos x ys i h))
  only_one x m (y ∷ ys) c (inr i) (inr j) h k = only_one x m ys (ground arith) i j h k
