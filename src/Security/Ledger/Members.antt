-- ===== src/Security/Ledger/Members.antt =====
-- What is found or left in the file of pending actions was in it.
use invarail.Prelude.{
  ℕ, ◌≡◌, inl, inr, Bool, true, false, List, [], ◌∷◌, Option, some, Text, In, In-All, keep-In, All,
  All-find_first, All-last?, keep, find_first, or_else, arith, Option-cases, ◌&&◌, ◌==◌, Bool-cases,
}
use invarail.Security.Ledger.{
  PendingAction, File, is_live, load, save, matches, has_id, remove_first, latest_for, find_by_id,
  consume,
}

abbrev pub Held : PendingAction → File PendingAction → Type 0
Held a file = In a (or_else file [])

load-Held : (now : ℕ) (file : File PendingAction) → All (λ a. Held a file) (load now file)
unfolding load
load-Held now file =
    In-All (λ a. Held a file) (keep (is_live now) (or_else file []))
      λ a i. (keep-In (is_live now) a (or_else file []) i).0

pub find_by_id-Held :
    (id sender : Text) (now : ℕ) (file : File PendingAction) (a : PendingAction)
    → find_by_id id sender now file ≡ some a
    → Held a file
unfolding find_by_id
find_by_id-Held id sender now file a h =
    All-find_first (λ x. Held x file) (λ x. x.id == id && x.sender == sender) (load now file) a
      (load-Held now file) h

pub latest_for-Held :
    (sender : Text) (channel : Option Text) (max_age : Option ℕ) (now read_at : ℕ)
    (file : File PendingAction) (a : PendingAction)
    → latest_for sender channel max_age now read_at file ≡ some a
    → Held a file
unfolding latest_for load
latest_for-Held sender channel max_age now read_at file a h =
    let test = matches sender channel max_age now in
    All-last? (λ x. Held x file) (keep test (load read_at file)) a
      (In-All (λ x. Held x file) (keep test (load read_at file))
        λ x i.
          (keep-In (is_live read_at) x (or_else file [])
            (keep-In test x (load read_at file) i).0).0)
      h

remove_first-In :
    (p : PendingAction → Bool) (x : PendingAction) (xs : List PendingAction)
    → In x (remove_first p xs)
    → In x xs
remove_first-In p x [] i = i
remove_first-In p x (y ∷ ys) i = elim (Bool-cases (p y)) [
  | inl found ↦ ground (arith, remove_first-In p x ys)
  | inr other ↦ ground (arith, remove_first-In p x ys)
]

save-Held :
    (lands : Bool) (xs : List PendingAction) (file : File PendingAction) (x : PendingAction)
    → (In x xs → Held x file)
    → Held x (save lands xs file)
    → Held x file
unfolding save
save-Held true xs file x h i = h i
save-Held false xs file x h i = i

-- A consumption adds no entry.
pub consume-Held :
    (id : Text) (now : ℕ) (lands : Bool) (file : File PendingAction) (x : PendingAction)
    → Held x (consume id now lands file).1
    → Held x file
unfolding consume load
consume-Held id now lands file x i = elim (Option-cases (find_first (has_id id) (load now file))) [
  | inl nothing ↦ rw (nothing, consume) at i
  | inr (a, found) ↦
      save-Held lands (remove_first (has_id id) (load now file)) file x
        (λ k.
          (keep-In (is_live now) x (or_else file [])
            (remove_first-In (has_id id) x (load now file) k)).0)
        (rw (found, consume) at i)
]
