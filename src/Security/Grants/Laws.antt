-- ===== src/Security/Grants/Laws.antt =====
-- What a standing grant covers, what minting and revoking one do, and which calls run unasked.
use invarail.Prelude.{
  find_first-append, ap, ◌∙◌, List, is_empty, truthy, trim, lookup, ℕ, ◌≡◌, ◌⊎◌, refl, inl, inr,
  true, false, [], ◌∷◌, Option, none, some, Text, eq_iff, eq_refl, find_first_passes, or_else,
  arith, Option-cases,
}
use invarail.Json.{Json, null, bool, num, str, arr, obj, Params}
use invarail.Registry.{Tool}
use invarail.Security.Ledger.{File, save}
use invarail.Security.Grants.{
  StandingGrant, GrantSource, covers, find_match, record_grant, grant_target_for, Approval, Origin,
  origin_target, target_part, both, target_parts, join_colon, join_parts, resolve_grant_approval,
  approve_target, from_origin,
}

find_match_sound :
    (tool target principal : Text) (file : File StandingGrant) (g : StandingGrant)
    → find_match tool target principal file ≡ some g
    → (g.tool ≡ tool) × (g.target ≡ target) × (g.principal ≡ principal)
unfolding find_match
find_match_sound tool target principal file g h = ground (
  arith,
  find_first_passes (covers tool target principal) (or_else file []) g h,
  eq_iff g.tool tool,
  eq_iff g.target target,
  eq_iff g.principal principal,
)

abbrev fresh : Text → ℕ → Text → Text → Text → Text → GrantSource → StandingGrant
fresh id now tool target principal channel source = record {
  id = id;
  tool = tool;
  target = target;
  principal = principal;
  channel = channel;
  created_at = now;
  source = source;
}

module _ (id : Text) (now : ℕ) (tool target principal channel : Text) (source : GrantSource)
    (file : File StandingGrant) where
  covers-fresh :
      covers tool target principal (fresh id now tool target principal channel source) ≡ true
  covers-fresh = simp eq_refl

  -- After a write that lands, the grant that `record` answers with is the one that covers the pair
  -- for the principal, whether it was there before or is new.
  pub find_match-record_grant :
      find_match tool target principal
        (record_grant id now true tool target principal channel source file).1
      ≡ some (record_grant id now true tool target principal channel source file).0
  unfolding record_grant find_match save
  find_match-record_grant = ground (
    arith,
    find_first-append (covers tool target principal) (or_else file [])
        (fresh id now tool target principal channel source),
    covers-fresh,
  )

  -- Where the pair has no grant and the write fails, `record` still answers with a grant, and no
  -- call is covered by it: the file is as it was.
  pub record_grant_lost :
      find_match tool target principal file ≡ none
      → (find_match tool target principal
            (record_grant id now false tool target principal channel source file).1
          ≡ none)
        × ((record_grant id now false tool target principal channel source file).0
            ≡ fresh id now tool target principal channel source)
  unfolding record_grant find_match save
  record_grant_lost h = ground arith

-- Every argument is given as a string that is more than white space; the parts are these, trimmed.
abbrev pub AllGiven : Params → List Text → List Text → Type 0
AllGiven params [] parts = parts ≡ []
AllGiven params (arg ∷ args) parts =
    (s : Text) × (rest : List Text) × (lookup arg params ≡ some (str s))
    × (truthy (trim s) ≡ true)
    × (parts ≡ trim s ∷ rest)
    × AllGiven params args rest

-- The tool declares target arguments, all of them are given, and the target is their parts.
abbrev pub Targets : Tool → Params → Text → Type 0
Targets tool params target =
    (args : List Text) × (parts : List Text) × (tool.target_args ≡ some args)
    × (is_empty args ≡ false)
    × AllGiven params args parts
    × (target ≡ join_colon parts)

given_part :
    (v : Option Json) (t : Text)
    → target_part v ≡ some t
    → (s : Text) × (v ≡ some (str s)) × (truthy (trim s) ≡ true) × (t ≡ trim s)
unfolding target_part
given_part (some (str s)) t h = (s, refl, ground (arith, h), ground (arith, h))
given_part (some null) t h = ground arith
given_part (some (bool b)) t h = ground arith
given_part (some (num n)) t h = ground arith
given_part (some (arr xs)) t h = ground arith
given_part (some (obj fs)) t h = ground arith
given_part none t h = ground arith

both_given :
    (v : Option Text) (w : Option (List Text)) (ts : List Text)
    → both v w ≡ some ts
    → (t : Text) × (rest : List Text) × (v ≡ some t) × (w ≡ some rest) × (ts ≡ t ∷ rest)
both_given none w ts h = ground arith
both_given (some t) none ts h = ground arith
both_given (some t) (some rest) ts h = (t, rest, refl, refl, ground (arith, h))

target_parts-AllGiven :
    (params : Params) (args parts : List Text)
    → target_parts params args ≡ some parts
    → AllGiven params args parts
unfolding target_parts
target_parts-AllGiven params [] parts h = ground (arith, h)
target_parts-AllGiven params (arg ∷ args) parts h =
    let (t, rest, here, there, e) =
      both_given (target_part (lookup arg params)) (target_parts params args) parts h in
    let (s, v, full, same) = given_part (lookup arg params) t here in
    (
      s,
      rest,
      v,
      full,
      e ∙ ap (λ (u : Text). u ∷ rest) same,
      target_parts-AllGiven params args rest there,
    )

grant_target_for-Targets :
    (tool : Tool) (params : Params) (target : Text)
    → grant_target_for (some tool) params ≡ some target
    → Targets tool params target
unfolding grant_target_for
grant_target_for-Targets tool params target h = declared tool.target_args refl
  where
    joined :
        (args : List Text) (o : Option (List Text))
        → tool.target_args ≡ some args
        → is_empty args ≡ false
        → target_parts params args ≡ o
        → join_parts o ≡ some target
        → Targets tool params target
    joined args none d n e k = ground arith
    joined args (some parts) d n e k =
        (args, parts, d, n, target_parts-AllGiven params args parts e, ground (arith, k))

    declared : (o : Option (List Text)) → tool.target_args ≡ o → Targets tool params target
    declared none d = absurd (ground arith)
    declared (some []) d = absurd (ground arith)
    declared (some (a ∷ args)) d =
        joined (a ∷ args) (target_parts params (a ∷ args)) d refl refl
          (rw (d, grant_target_for) at h)

-- A call runs unasked only if its tool declares target arguments, each of them is given as a string
-- that is not blank, and for the target that these strings, trimmed and joined, are: either a stored
-- grant has this tool, this target and this principal, or the target is the conversation that the
-- request came from.
pub resolve_grant_approval_sound :
    (tool : Tool) (params : Params) (principal : Text) (origin : Option Origin)
    (file : File StandingGrant) (a : Approval)
    → resolve_grant_approval (some tool) params principal origin file ≡ some a
    → (target : Text) × Targets tool params target
      × (((g : StandingGrant) × (find_match tool.name target principal file ≡ some g)
            × (g.tool ≡ tool.name)
            × (g.target ≡ target)
            × (g.principal ≡ principal))
          ⊎ ((o : Origin) × (origin ≡ some o) × (target ≡ origin_target o)))
unfolding resolve_grant_approval
resolve_grant_approval_sound tool params principal origin file a h =
    elim (Option-cases (grant_target_for (some tool) params)) [
      | inl without ↦ absurd (ground arith)
      | inr (target, e) ↦
          (target, grant_target_for-Targets tool params target e, covered target (rw e at h))
    ]
  where
    by_origin :
        (o : Option Origin) (target : Text)
        → from_origin o target ≡ some a
        → (p : Origin) × (o ≡ some p) × (target ≡ origin_target p)
    by_origin none target k = ground arith
    by_origin (some o) target k = (o, refl, ground (arith, eq_iff target (origin_target o)))

    covered :
        (target : Text)
        → approve_target tool principal origin file (some target) ≡ some a
        → ((g : StandingGrant) × (find_match tool.name target principal file ≡ some g)
            × (g.tool ≡ tool.name)
            × (g.target ≡ target)
            × (g.principal ≡ principal))
          ⊎ ((o : Origin) × (origin ≡ some o) × (target ≡ origin_target o))
    covered [] k = absurd (ground arith)
    covered (c ∷ s) k = elim (Option-cases (find_match tool.name (c ∷ s) principal file)) [
      | inl no_grant ↦ inr (by_origin origin (c ∷ s) (rw (no_grant, approve_target) at k))
      | inr (g, found) ↦
          let (t, u, v) = find_match_sound tool.name (c ∷ s) principal file g found in
          inl (g, found, t, u, v)
    ]
