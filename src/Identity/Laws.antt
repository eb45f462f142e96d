-- ===== src/Identity/Laws.antt =====
-- Who a sender is: resolution is stable, and ownership does not depend on the spelling used.
use invarail.Prelude.{
  map_laws, ◌≡◌, inl, inr, true, false, ◌||◌, List, [], ◌∷◌, some, Text, lookup, assign,
  lookup-assign, truthy, eq_iff, arith, Option-cases,
}
use invarail.Identity.{
  Principal, People, Aliases, taken_by_another, claim, claim_all, alias_map_from, alias_map,
  resolve_principal, is_owner,
}

-- What an alias stands for is empty, or stands for itself.
abbrev Settled : Aliases → Type 0
Settled m = (a p : Text) → lookup a m ≡ some p → truthy p ≡ true → lookup p m ≡ some p

assign-Settled_self : (p : Text) (m : Aliases) → Settled m → Settled (assign p p m)
assign-Settled_self p m s a q h t =
    rw lookup-assign (ground (arith, eq_iff p q, eq_iff p a, lookup-assign p a p m, s a q))

claim-Settled : (p a : Text) (m : Aliases) → lookup p m ≡ some p → Settled m → Settled (claim p a m)
unfolding claim taken_by_another
claim-Settled p a m own s b q h t =
    ground (
      arith,
      s b q,
      lookup-assign a b p m,
      lookup-assign a q p m,
      eq_iff a b,
      eq_iff a q,
      eq_iff q p,
    )

claim_own : (p a : Text) (m : Aliases) → lookup p m ≡ some p → lookup p (claim p a m) ≡ some p
unfolding claim taken_by_another
claim_own p a m own = ground (arith, lookup-assign a p p m, eq_iff a p)

claim_all-Settled :
    (p : Text) (aliases : List Text) (m : Aliases)
    → lookup p m ≡ some p
    → Settled m
    → Settled (claim_all p aliases m)
unfolding claim_all
claim_all-Settled p [] m own s = s
claim_all-Settled p (a ∷ rest) m own s =
    claim_all-Settled p rest (claim p a m) (claim_own p a m own) (claim-Settled p a m own s)

assign_self : (p : Text) (m : Aliases) → lookup p (assign p p m) ≡ some p
assign_self p m = simp map_laws

alias_map_from-Settled :
    (ps : List Principal) (m : Aliases) → Settled m → Settled (alias_map_from ps m)
unfolding alias_map_from
alias_map_from-Settled [] m s = s
alias_map_from-Settled (p ∷ ps) m s =
    alias_map_from-Settled ps (claim_all p.name p.aliases (assign p.name p.name m)) (
      claim_all-Settled p.name p.aliases (assign p.name p.name m) (assign_self p.name m)
        (assign-Settled_self p.name m s))

alias_map-Settled : (config : People) → Settled (alias_map config)
unfolding alias_map lookup
alias_map-Settled config = alias_map_from-Settled config.principals [] (λ a p h t. ground arith)

-- Resolving what a sender resolves to changes nothing, whatever the aliases in the configuration.
pub resolve_principal_idempotent :
    (sender : Text) (config : People)
    → resolve_principal (resolve_principal sender config) config ≡ resolve_principal sender config
unfolding resolve_principal
resolve_principal_idempotent sender config =
    elim (Option-cases (lookup sender (alias_map config))) [
      | inl unmapped ↦ ground (arith)
      | inr (p, mapped) ↦ ground (arith, alias_map-Settled config sender p mapped)
    ]

resolve_principal_empty :
    (sender : Text) (config : People)
    → truthy sender ≡ false
    → resolve_principal sender config ≡ sender
unfolding resolve_principal
resolve_principal_empty sender config h = rw h

-- If the principal of a sender is the owner then the sender's own id is the owner too, so a check
-- of both spellings answers as a check of the raw id alone.
pub is_owner-resolve_principal :
    (sender : Text) (config : People)
    → (is_owner (resolve_principal sender config) config || is_owner sender config)
      ≡ is_owner sender config
unfolding is_owner
is_owner-resolve_principal sender config = elim (Option-cases config.owner_id) [
  | inl nobody ↦ ground arith
  | inr (owner, named) ↦ ground (
    arith,
    eq_iff (resolve_principal sender config) owner,
    eq_iff sender owner,
    eq_iff (resolve_principal (resolve_principal sender config) config)
        (resolve_principal owner config),
    eq_iff (resolve_principal sender config) (resolve_principal owner config),
    resolve_principal_idempotent sender config,
    resolve_principal_empty sender config,
  )
]
