-- ===== src/Identity.antt =====
-- src/identity/principal.ts: a person, and the channel ids that are aliases of that person.
pub mod Laws
use invarail.Prelude.{
  ◌≡◌, Bool, true, false, ◌&&◌, ◌||◌, not, List, [], ◌∷◌, Option, none, some, Text, ◌==◌, or_else,
  truthy, lookup, assign, if◌then◌else◌,
}

-- One entry of `config.principals`: its key, and the fields that identity reads.
pub record Principal : Type 0 where
  pub name : Text
  pub aliases : List Text
  pub display_name : Option Text

-- The part of the configuration that identity reads.
pub record People : Type 0 where
  pub owner_id : Option Text
  pub principals : List Principal

-- The `Map` from an alias to its principal.
abbrev pub Aliases : Type 0
Aliases = List (Text × Text)

-- `prior && prior !== principal`
unfoldable pub taken_by_another : Option Text → Text → Bool
taken_by_another none principal = false
taken_by_another (some prior) principal = truthy prior && not (prior == principal)

-- One round of the loop over `def.aliases`; the first claim of an alias stands.
unfoldable pub claim : Text → Text → Aliases → Aliases
unfolding taken_by_another
claim principal alias m =
    if taken_by_another (lookup alias m) principal then m else assign alias principal m

unfoldable pub claim_all : Text → List Text → Aliases → Aliases
claim_all principal [] m = m
claim_all principal (alias ∷ rest) m = claim_all principal rest (claim principal alias m)

unfoldable pub alias_map_from : List Principal → Aliases → Aliases
alias_map_from [] m = m
alias_map_from (p ∷ ps) m = alias_map_from ps (claim_all p.name p.aliases (assign p.name p.name m))

unfoldable pub alias_map : People → Aliases
alias_map config = alias_map_from config.principals []

-- `resolvePrincipal` at a sender that is given.
unfoldable pub resolve_principal : Text → People → Text
resolve_principal sender config =
    if truthy sender then or_else (lookup sender (alias_map config)) sender else sender

unfoldable pub is_owner_of : Text → Text → People → Bool
is_owner_of sender owner config =
    truthy sender
    && truthy owner
    && (sender == owner || resolve_principal sender config == resolve_principal owner config)

unfoldable pub is_owner : Text → People → Bool
unfolding is_owner_of
is_owner sender config = elim config.owner_id [
  | none ↦ false
  | some owner ↦ is_owner_of sender owner config
]

unfoldable pub contains_name : Text → List Text → Bool
contains_name a [] = false
contains_name a (x ∷ xs) = x == a || contains_name a xs

-- `Set.add`, in insertion order
unfoldable pub add_name : Text → List Text → List Text
unfolding contains_name
add_name a xs = if contains_name a xs then xs else a ∷ xs

abbrev add_truthy : Option Text → List Text → List Text
add_truthy none xs = xs
add_truthy (some a) xs = if truthy a then add_name a xs else xs

-- Every name that the owner is known by; the list is the set, newest first.
unfoldable pub owner_names_from : List Principal → List Text → List Text
unfolding add_name
owner_names_from [] names = names
owner_names_from (p ∷ ps) names =
    owner_names_from ps (add_truthy p.display_name (add_truthy (some p.name) names))
