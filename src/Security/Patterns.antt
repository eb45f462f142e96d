-- ===== src/Security/Patterns.antt =====
-- The regular expressions of src/security/pending-actions.ts, as recognisers of a trimmed message.
-- Each is anchored at both ends and folds ASCII case. A word is matched by its lower-case letters;
-- what follows a word is white space, an id and a closing mark, and no two of these can start with
-- the same character, so the longest match of each part is the only one.
mod Examples
use invarail.Prelude.{
  ℕ, zero, suc, ◌+◌, ◌≡◌, refl, Bool, true, false, ◌&&◌, ◌||◌, List, [], ◌∷◌, ◌++◌, Option, none,
  some, Text, text, leb, nat_eq, is_space, lower, lower_unit, trim, trim_start, is_some, length,
  or_option, if◌then◌else◌,
}

-- What is left behind a word, in lower case, at the front of the message.
unfoldable pub after_word : Text → Text → Option Text
after_word [] s = some s
after_word (c ∷ w) [] = none
after_word (c ∷ w) (d ∷ s) =
    let rest = after_word w s in if nat_eq c (lower_unit d) then rest else none

abbrev pub is_hex : ℕ → Bool
is_hex c = (leb b'0' c && leb c b'9') || (leb b'a' (lower_unit c) && leb (lower_unit c) b'f')

abbrev pub is_alnum : ℕ → Bool
is_alnum c = (leb b'0' c && leb c b'9') || (leb b'a' (lower_unit c) && leb (lower_unit c) b'z')

-- The longest run of a class at the front, and what is left.
unfoldable pub run : (ℕ → Bool) → Text → Text × Text
run p [] = ([], [])
run p (c ∷ s) = let (taken, left) = run p s in if p c then (c ∷ taken, left) else ([], c ∷ s)

-- `[.!]?$`
abbrev closes_mark : Text → Bool
closes_mark [] = true
closes_mark (c ∷ []) = nat_eq c b'.' || nat_eq c b'!'
closes_mark (c ∷ d ∷ s) = false

-- `\s*[.!]?$`
unfoldable pub closes : Text → Bool
unfolding trim_start
closes s = closes_mark (trim_start s)

abbrev starts_space : Text → Bool
starts_space [] = false
starts_space (c ∷ s) = is_space c

-- `\s+(C{least,most})\s*[.!]?$`, with the group.
unfoldable pub token_tail : (ℕ → Bool) → ℕ → ℕ → Text → Option Text
unfolding run closes trim_start
token_tail class least most s =
    let (id, left) = run class (trim_start s) in
    if starts_space s && leb least (length id) && leb (length id) most && closes left
    then some id
    else none

abbrev id_tail : Text → Option Text
id_tail = token_tail is_hex 6 12

abbrev then_tail {ℓ} : {A : Type ℓ} → (Text → Option A) → Option Text → Option A
then_tail f none = none
then_tail f (some s) = f s

-- `DENY_PATTERN`, with its group.
unfoldable pub deny_match : Text → Option Text
unfolding after_word token_tail
deny_match s = or_option (then_tail id_tail (after_word (text "deny") s)) (
    or_option (then_tail id_tail (after_word (text "cancel") s))
      (then_tail id_tail (after_word (text "reject") s)))

-- `ALWAYS_PATTERN`, with its group.
unfoldable pub always_match : Text → Option Text
unfolding after_word token_tail
always_match s = then_tail id_tail (after_word (text "always") s)

abbrev optional : ℕ → Text → Text
optional c [] = []
optional c (d ∷ s) = if nat_eq c (lower_unit d) then s else d ∷ s

-- `yes,?\s*do it`
abbrev after_yes : Text → Option Text
after_yes s = elim (after_word (text "yes") s) [
  | none ↦ none
  | some rest ↦ after_word (text "do it") (trim_start (optional b',' rest))
]

abbrev after_approve : Text → Option Text
after_approve s = elim (after_word (text "approve") s) [
  | none ↦ none
  | some rest ↦ some (optional b'd' rest)
]

-- `(?:confirm|yes,?\s*do it|approved?|go ahead|proceed)`: no two of these words begin alike.
unfoldable pub after_confirm : Text → Option Text
unfolding after_word trim_start
after_confirm s = or_option (after_word (text "confirm") s) (
    or_option (after_yes s) (
      or_option (after_approve s)
        (or_option (after_word (text "go ahead") s) (after_word (text "proceed") s))))

-- `(?:\s+([a-f0-9]{6,12}))?\s*[.!]?$`: the inner option is the group.
abbrev confirm_tail : Text → Option (Option Text)
confirm_tail s = elim (id_tail s) [
  | some id ↦ some (some id)
  | none ↦ if closes s then some none else none
]

-- `CONFIRMATION_PATTERN`
unfoldable pub confirmation_match : Text → Option (Option Text)
unfolding after_confirm token_tail
confirmation_match s = then_tail confirm_tail (after_confirm s)

-- `CONFIRMATION_NEAR_MISS`
unfoldable pub near_miss : Text → Bool
unfolding after_word token_tail
near_miss s = is_some (
    then_tail (token_tail is_alnum 1 12) (
      or_option (after_word (text "confirm") s) (
        or_option (after_approve s)
          (or_option (after_word (text "ok") s) (after_word (text "always") s)))))

abbrev lower_group : Option (Option Text) → Option Text
lower_group none = none
lower_group (some none) = none
lower_group (some (some id)) = some (lower id)

unfoldable pub parse_confirmation_id : Text → Option Text
unfolding confirmation_match trim
parse_confirmation_id message = lower_group (confirmation_match (trim message))
