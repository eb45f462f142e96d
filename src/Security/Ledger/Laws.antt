-- ===== src/Security/Ledger/Laws.antt =====
-- What the ledger hands out.
use invarail.Prelude.{
  ℕ, ◌+◌, ◌≤◌, ◌<◌, ◌≡◌, refl, true, false, ◌&&◌, List, [], ◌∷◌, ◌++◌, some, Text, ◌==◌, eq_iff,
  keep, find_first, or_else, arith, All, All-find_first, All-keep, find_first_passes, keep-All,
  All-last?,
}
use invarail.Security.Ledger.{
  PendingAction, Preview, File, is_live, load, save, record_action, matches, latest_for, find_by_id,
  has_id,
}

-- An entry that is found is live, has the id that was asked for, and belongs to the sender.
pub find_by_id_sound :
    (id sender : Text) (now : ℕ) (file : File PendingAction) (a : PendingAction)
    → find_by_id id sender now file ≡ some a
    → (a.id ≡ id) × (a.sender ≡ sender) × (now < a.expires_at)
unfolding find_by_id load
find_by_id_sound id sender now file a h = ground (
  arith,
  find_first_passes (λ (x : PendingAction). x.id == id && x.sender == sender)
      (keep (is_live now) (or_else file [])) a h,
  All-find_first (λ x. is_live now x ≡ true) (λ x. x.id == id && x.sender == sender)
      (keep (is_live now) (or_else file [])) a (keep-All (is_live now) (or_else file [])) h,
  eq_iff a.id id,
  eq_iff a.sender sender,
)

-- What a bare confirmation picks is live, belongs to the sender, was recorded on the channel, and
-- was recorded no longer ago than the limit.
pub latest_for_sound :
    (sender channel : Text) (max_age now read_at : ℕ) (file : File PendingAction)
    (a : PendingAction)
    → latest_for sender (some channel) (some max_age) now read_at file ≡ some a
    → (a.sender ≡ sender)
      × (a.channel ≡ channel)
      × (now ≤ a.created_at + max_age)
      × (read_at < a.expires_at)
unfolding latest_for load
latest_for_sound sender channel max_age now read_at file a h =
    let live = keep (is_live read_at) (or_else file []) in
    let test = matches sender (some channel) (some max_age) now in
    ground (
      arith,
      All-last? (λ x. test x ≡ true) (keep test live) a (keep-All test live) h,
      All-last? (λ x. is_live read_at x ≡ true) (keep test live) a
          (All-keep (λ x. is_live read_at x ≡ true) test live
            (keep-All (is_live read_at) (or_else file [])))
          h,
      eq_iff a.sender sender,
      eq_iff a.channel channel,
    )

-- No entry of the list has the id.
abbrev pub IsNew : Text → List PendingAction → Type 0
IsNew id = All (λ a. has_id id a ≡ false)

find_first_new :
    (id sender : Text) (now : ℕ) (xs : List PendingAction) (a : PendingAction)
    → IsNew id xs
    → a.id ≡ id
    → a.sender ≡ sender
    → is_live now a ≡ true
    → find_first (λ x. x.id == id && x.sender == sender) (keep (is_live now) (xs ++ a ∷ []))
      ≡ some a
find_first_new id sender now [] a new same own live =
    ground (arith, eq_iff a.id id, eq_iff a.sender sender)
find_first_new id sender now (x ∷ xs) a (p, new) same own live =
    ground (arith, find_first_new id sender now xs a new same own live)

-- A preview that is recorded under a new id, where the write lands, is found under that id by its
-- sender until it expires, exactly as it was previewed: tool, parameters, channel, agent, session
-- and category.
pub find_by_id-record_action :
    (id : Text) (now read_at ttl later : ℕ) (entry : Preview) (file : File PendingAction)
    → IsNew id (or_else file [])
    → later < now + ttl
    → (a : PendingAction) × ((record_action id now read_at ttl true entry file).0 ≡ some a)
      × (find_by_id id entry.sender later (record_action id now read_at ttl true entry file).1
          ≡ some a)
      × (a.preview ≡ entry)
unfolding record_action find_by_id load save
find_by_id-record_action id now read_at ttl later entry file new early =
    let a : PendingAction = record {
      preview = entry;
      id = id;
      created_at = now;
      expires_at = now + ttl;
    } in
    (
      a,
      refl,
      find_first_new id entry.sender later (keep (is_live read_at) (or_else file [])) a
          (All-keep (λ x. has_id id x ≡ false) (is_live read_at) (or_else file []) new) refl refl
          (ground arith),
      refl,
    )
