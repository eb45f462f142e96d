-- ===== src/Router/Reroute/Gaps.antt =====
-- Which gaps a reroute names.
use invarail.Prelude.{
  ◌≡◌, refl, sym, ◌∙◌, ap, or_else, Bool, true, false, List, [], ◌∷◌, Option, none, some, Text,
  includes, find_first, is_empty, take_last, trim, In, inl, inr, arith, Option-cases, Bool-cases,
}
use mathlib.Core.Path.{subst}
use invarail.Router.Reroute.{
  Capability, intent_tools, claim_tools, Expressions, Kind, claimed, announced, RerouteSignal,
  announces, first_missing, announced_missing_capability, claims, claimed_missing_capability,
  strongest, reroute_signal,
}

-- What a search finds is of the list, and passes.
find_first-In :
    {A : Type 0} (p : A → Bool) (xs : List A) (a : A)
    → find_first p xs ≡ some a
    → In a xs × (p a ≡ true)
find_first-In p [] a h = ground arith
find_first-In p (x ∷ xs) a h = elim (Bool-cases (p x)) [
  | inl e ↦ ground arith
  | inr e ↦ ground (arith, find_first-In p xs a)
]

first_missing-In :
    (x : Expressions) (tools clauses : List Text) (c : Capability)
    → first_missing x tools clauses ≡ some c
    → (includes c.tool tools ≡ false)
      × In c intent_tools
      × (clause : Text) × In clause clauses
      × (x.has_verb c clause ≡ true)
unfolding first_missing
first_missing-In x tools [] c h = ground arith
first_missing-In x tools (clause ∷ clauses) c h =
    elim (Option-cases (find_first (announces x tools clause) intent_tools)) [
      | inl e ↦
          let (gap, i, k, j, v) =
            first_missing-In x tools clauses c (sym (rw (e, first_missing) refl) ∙ h) in
          (gap, i, k, inr j, v)
      | inr (a, e) ↦
          let (i, p) = find_first-In (announces x tools clause) intent_tools a e in
          let e2 : first_missing x tools (clause ∷ clauses) ≡ some a = rw (e, first_missing) refl in
          let same : a ≡ c = ap (λ (o : Option Capability). or_else o a) (sym e2 ∙ h) in
          subst
            (λ (b : Capability).
              (includes b.tool tools ≡ false)
              × In b intent_tools
              × (t : Text) × In t (clause ∷ clauses)
              × (x.has_verb b t ≡ true))
            same (ground arith, i, clause, inl refl, ground arith)
    ]

module _ (x : Expressions) (answer : Text) (tools : List Text) where
  -- A claim in the answer, or an announcement in one of the clauses of its end.
  abbrev pub Shows : Kind → Capability → Type 0
  Shows claimed c = In c claim_tools × (x.has_claim c answer ≡ true)
  Shows announced c =
      In c intent_tools
      × (clause : Text) × In clause (x.intent_clauses (take_last 500 (trim answer)))
      × (x.has_verb c clause ≡ true)

  abbrev pub Lacks : Kind → Text → Type 0
  Lacks kind need =
      (c : Capability) × (need ≡ c.need) × (includes c.tool tools ≡ false) × Shows kind c

  claimed-Lacks :
      (c : Capability) → claimed_missing_capability x answer tools ≡ some c → Lacks claimed c.need
  unfolding claimed_missing_capability
  claimed-Lacks c h =
      let (i, p) = find_first-In (claims x tools answer) claim_tools c h in
      (c, refl, ground arith, (i, ground arith))

  announced-Lacks :
      (c : Capability)
      → announced_missing_capability x answer tools ≡ some c
      → Lacks announced c.need
  unfolding announced_missing_capability
  announced-Lacks c h =
      let tail = take_last 500 (trim answer) in
      elim (Bool-cases (is_empty tail)) [
        | inl e ↦ ground arith
        | inr e ↦
            let (gap, i, k, j, v) =
              first_missing-In x tools (x.intent_clauses tail) c (ground arith) in
            (c, refl, gap, (i, k, j, v))
      ]

  transfer :
      (r s : RerouteSignal) → some r ≡ some s → Lacks r.kind r.missing → Lacks s.kind s.missing
  transfer r s h l =
      subst (λ (q : RerouteSignal). Lacks q.kind q.missing) (ap (λ o. or_else o r) h) l

  strongest-Lacks :
      (o p : Option Capability) (s : RerouteSignal)
      → ((c : Capability) → o ≡ some c → Lacks claimed c.need)
      → ((c : Capability) → p ≡ some c → Lacks announced c.need)
      → strongest x o p ≡ some s
      → Lacks s.kind s.missing
  strongest-Lacks (some c) p s f g h = transfer _ s h (f c refl)
  strongest-Lacks none (some c) s f g h = transfer _ s h (g c refl)
  strongest-Lacks none none s f g h = ground arith

  -- What a reroute names as missing is the need of a tool that the specialist does not hold: one that
  -- the answer claims to have used, or one that a clause of its end announces.
  pub reroute_signal-Lacks :
      (s : RerouteSignal) → reroute_signal x answer tools ≡ some s → Lacks s.kind s.missing
  unfolding reroute_signal
  reroute_signal-Lacks s h =
      strongest-Lacks (claimed_missing_capability x answer tools)
        (announced_missing_capability x answer tools) s claimed-Lacks announced-Lacks h
