-- ===== src/Security/Ledger/Counts.antt =====
-- A confirmation is spent: how often an id stands in the ledger, before and after.
use invarail.Prelude.{
  ℕ, ◌+◌, ◌≤◌, ◌≡◌, ◌≢◌, ◌⊎◌, is_some, refl, Bool, true, List, [], ◌∷◌, some, Text, eq_iff, keep,
  find_first, find_first_passes, count, count-keep_le, or_else, arith,
}
use invarail.Security.Ledger.{
  PendingAction, File, is_live, load, save, has_id, remove_first, consume,
}

-- How many entries of the file have the id.
abbrev pub stored : Text → File PendingAction → ℕ
stored id file = count (has_id id) (or_else file [])

pub count-remove_first {ℓ} :
    {A : Type ℓ} (p : A → Bool) (xs : List A) (x : A)
    → find_first p xs ≡ some x
    → count p (remove_first p xs) + 1 ≡ count p xs
count-remove_first p [] x h = ground arith
count-remove_first p (y ∷ ys) x h = ground (arith, count-remove_first p ys x)

pub count-remove_first_le {ℓ} :
    {A : Type ℓ} (q p : A → Bool) (xs : List A) → count q (remove_first p xs) ≤ count q xs
count-remove_first_le q p [] = omega arith
count-remove_first_le q p (y ∷ ys) = ground (arith, count-remove_first_le q p ys)

count-remove_first_other :
    (j id : Text) (xs : List PendingAction)
    → j ≢ id
    → count (has_id j) (remove_first (has_id id) xs) ≡ count (has_id j) xs
count-remove_first_other j id [] ne = refl
count-remove_first_other j id (y ∷ ys) ne =
    ground (arith, eq_iff y.id id, eq_iff y.id j, count-remove_first_other j id ys ne)

-- A confirmation that is handed out is one fewer in the file; the write has landed, the entry has
-- the id that was asked for, and entries of other ids that have not expired are all still there.
pub consume_spends :
    (id j : Text) (now : ℕ) (lands : Bool) (file : File PendingAction) (a : PendingAction)
    → j ≢ id
    → (consume id now lands file).0 ≡ some a
    → (lands ≡ true)
      × (a.id ≡ id)
      × (stored id (consume id now lands file).1 + 1 ≤ stored id file)
      × (stored j (consume id now lands file).1 ≡ count (has_id j) (load now file))
unfolding consume load save
consume_spends id j now lands file a ne h =
    let live = keep (is_live now) (or_else file []) in
    ground (
      arith,
      count-remove_first (has_id id) live,
      count-remove_first (has_id id) live a,
      find_first_passes (has_id id) live a,
      eq_iff a.id id,
      count-remove_first_other j id live ne,
      count-keep_le (has_id id) (is_live now) (or_else file []),
    )

-- No call of `consume` adds an entry, and where it hands out nothing the file is as it was.
consume_shrinks :
    (id j : Text) (now : ℕ) (lands : Bool) (file : File PendingAction)
    → (stored j (consume id now lands file).1 ≤ stored j file)
      × ((is_some (consume id now lands file).0 ≡ true) ⊎ ((consume id now lands file).1 ≡ file))
unfolding consume load save
consume_shrinks id j now lands file =
    let live = keep (is_live now) (or_else file []) in
    ground (
      arith,
      count-remove_first_le (has_id j) (has_id id) live,
      count-keep_le (has_id j) (is_live now) (or_else file []),
    )
