-- ===== src/Security/Ledger.antt =====
-- src/security/pending-actions.ts: the ledger of previewed actions that wait for a confirmation.
-- The file is the list that it holds, or `none` where it cannot be read or parsed. A time is in
-- milliseconds; a date that was written as text and read again is the same time. What `Date.now()`
-- and `randomBytes` return, and whether a write lands, are arguments.
pub mod Laws
pub mod Counts
pub mod Members
use invarail.Prelude.{
  ℕ, ◌+◌, ◌*◌, Bool, true, false, ◌&&◌, List, [], ◌∷◌, ◌++◌, Option, none, some, Text, ◌==◌, ltb,
  leb, keep, find_first, last?, or_else, if◌then◌else◌,
}
use invarail.Json.{Params}

-- What is previewed: `Omit<PendingAction, 'id' | 'createdAt' | 'expiresAt'>`.
pub record Preview : Type 0 where
  pub tool : Text
  pub params : Params
  pub sender : Text
  pub channel : Text
  pub agent_id : Text
  pub session_key : Text
  pub category : Option Text

pub record PendingAction : Type 0 where
  pub preview : Preview
  pub open preview use *
  pub id : Text
  pub created_at : ℕ
  pub expires_at : ℕ

abbrev pub ttl_ms : ℕ
ttl_ms = 10 * 60 * 1000

abbrev pub bare_confirm_max_age_ms : ℕ
bare_confirm_max_age_ms = 10 * 60 * 1000

abbrev pub File {ℓ} : Type ℓ → Type ℓ
File A = Option (List A)

abbrev pub is_live : ℕ → PendingAction → Bool
is_live now a = ltb now a.expires_at

-- Expired entries are dropped on every read.
unfoldable pub load : ℕ → File PendingAction → List PendingAction
load now file = keep (is_live now) (or_else file [])

-- Atomic: a write that fails leaves the file as it was.
unfoldable pub save {ℓ} : {A : Type ℓ} → Bool → List A → File A → File A
save true actions file = some actions
save false actions file = file

-- `record`; the answer is `null` where the write did not land.
unfoldable pub record_action :
    Text
    → ℕ
    → ℕ
    → ℕ
    → Bool
    → Preview
    → File PendingAction
    → Option PendingAction × File PendingAction
unfolding load save
record_action id now read_at ttl lands entry file =
    let action : PendingAction = record {
      preview = entry;
      id = id;
      created_at = now;
      expires_at = now + ttl;
    } in
    (if lands then some action else none, save lands (load read_at file ++ action ∷ []) file)

abbrev on_channel : Option Text → PendingAction → Bool
on_channel none a = true
on_channel (some c) a = a.channel == c

-- `createdAt >= now - maxAgeMs`
abbrev recent : Option ℕ → ℕ → PendingAction → Bool
recent none now a = true
recent (some age) now a = leb now (a.created_at + age)

abbrev pub matches : Text → Option Text → Option ℕ → ℕ → PendingAction → Bool
matches sender channel max_age now a =
    a.sender == sender && on_channel channel a && recent max_age now a

-- `latestFor`
unfoldable pub latest_for :
    Text → Option Text → Option ℕ → ℕ → ℕ → File PendingAction → Option PendingAction
unfolding load
latest_for sender channel max_age now read_at file =
    last? (keep (matches sender channel max_age now) (load read_at file))

unfoldable pub find_by_id : Text → Text → ℕ → File PendingAction → Option PendingAction
unfolding load
find_by_id id sender now file = find_first (λ a. a.id == id && a.sender == sender) (load now file)

unfoldable pub list_for : Text → ℕ → File PendingAction → List PendingAction
unfolding load
list_for sender now file = keep (λ a. a.sender == sender) (load now file)

abbrev pub has_id : Text → PendingAction → Bool
has_id id a = a.id == id

-- `splice(idx, 1)` at the first entry that passes the test
abbrev pub remove_first {ℓ} : {A : Type ℓ} → (A → Bool) → List A → List A
remove_first p [] = []
remove_first p (x ∷ xs) = let rest = remove_first p xs in if p x then xs else x ∷ rest

-- `consume`: the entry, removed from the file before anything may run on it.
unfoldable pub consume :
    Text → ℕ → Bool → File PendingAction → Option PendingAction × File PendingAction
unfolding load save
consume id now lands file =
    let actions = load now file in
    elim (find_first (has_id id) actions) [
      | none ↦ (none, file)
      | some action ↦
          (if lands then some action else none, save lands (remove_first (has_id id) actions) file)
    ]
