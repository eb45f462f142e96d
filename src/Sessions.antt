-- ===== src/Sessions.antt =====
-- src/sessions/state-tracker.ts, `applyDelta`: what a model extracted is merged into the state of a
-- session.
pub mod Store
use invarail.Prelude.{
  ℕ, zero, suc, ◌-◌, ◌≤◌, ◌≡◌, refl, ap, Bool, true, ◌&&◌, not, List, [], ◌∷◌, ◌++◌, map, Option,
  none, some, Text, trim, includes, or_else, drop, take_last, length, length-take_last,
  includes-append, eq_iff, arith, Bool-cases, inl, inr, if◌then◌else◌,
}

abbrev pub max_known_facts : ℕ
max_known_facts = 20

-- `SessionState`, the fields that the merge reads or writes.
pub record SessionState : Type 0 where
  pub current_topic : Text
  pub known_facts : List Text
  pub open_questions : List Text
  pub turn_count : ℕ
  pub last_semantic_update : ℕ

pub record StateDelta : Type 0 where
  pub current_topic : Option Text
  pub known_facts : Option (List Text)
  pub open_questions : Option (List Text)

-- `toLowerCase` is JavaScript's own: a parameter.
module _ (to_lower : Text → Text) where
  abbrev pub normalized : Text → Text
  normalized fact = trim (to_lower fact)

  -- The loop over the new facts, with the set of normal forms and the merged list.
  unfoldable pub merge_facts : List Text → List Text → List Text → List Text
  merge_facts [] existing merged = merged
  merge_facts (fact ∷ facts) existing merged =
      if includes (normalized fact) existing
      then merge_facts facts existing merged
      else merge_facts facts (normalized fact ∷ existing) (merged ++ fact ∷ [])

  abbrev merge_known : Option (List Text) → List Text → List Text
  merge_known none known = known
  merge_known (some facts) known =
      take_last max_known_facts (merge_facts facts (map normalized known) known)

  unfoldable pub apply_delta : SessionState → StateDelta → SessionState
  unfolding merge_facts
  apply_delta state delta = record state {
    last_semantic_update = state.turn_count;
    current_topic = or_else delta.current_topic state.current_topic;
    known_facts = merge_known delta.known_facts state.known_facts;
    open_questions = or_else delta.open_questions state.open_questions;
  }

  abbrev pub distinct : List Text → Bool
  distinct [] = true
  distinct (x ∷ xs) = not (includes x xs) && distinct xs

  distinct-append_one :
      (xs : List Text) (x : Text) → distinct (xs ++ x ∷ []) ≡ (distinct xs && not (includes x xs))
  unfolding includes
  distinct-append_one [] x = refl
  distinct-append_one (y ∷ xs) x =
      ground
        (arith, distinct-append_one xs x, includes-append y xs (x ∷ []), eq_iff x y, eq_iff y x)

  map-append_one :
      (xs : List Text) (x : Text)
      → map normalized (xs ++ x ∷ []) ≡ map normalized xs ++ normalized x ∷ []
  map-append_one [] x = refl
  map-append_one (y ∷ xs) x = ap (λ ys. normalized y ∷ ys) (map-append_one xs x)

  merge_facts-distinct :
      (facts existing merged : List Text)
      → ((n : Text) → includes n existing ≡ includes n (map normalized merged))
      → distinct (map normalized merged) ≡ true
      → distinct (map normalized (merge_facts facts existing merged)) ≡ true
  unfolding merge_facts includes
  merge_facts-distinct [] existing merged same d = d
  merge_facts-distinct (fact ∷ facts) existing merged same d =
      elim (Bool-cases (includes (normalized fact) existing)) [
        | inl known ↦ rw (known, merge_facts) (merge_facts-distinct facts existing merged same d)
        | inr new ↦
            rw (new, merge_facts)
              (merge_facts-distinct facts (normalized fact ∷ existing) (merged ++ fact ∷ [])
                (λ n. rw (map-append_one merged fact) (
                  ground (
                    arith,
                    same n,
                    includes-append n (map normalized merged) (normalized fact ∷ []),
                  )))
                (rw (map-append_one merged fact) (
                  ground (
                    arith,
                    same (normalized fact),
                    distinct-append_one (map normalized merged) (normalized fact),
                  ))))
      ]

  distinct-drop :
      (n : ℕ) (xs : List Text)
      → distinct (map normalized xs) ≡ true
      → distinct (map normalized (drop n xs)) ≡ true
  distinct-drop zero xs d = d
  distinct-drop (suc n) [] d = d
  distinct-drop (suc n) (x ∷ xs) d = distinct-drop n xs (ground (arith, d))

  -- Merging new facts into known facts that are distinct up to case and surrounding space leaves
  -- known facts that are so, and at most twenty.
  pub apply_delta-distinct :
      (state : SessionState) (facts : List Text) (delta : StateDelta)
      → delta.known_facts ≡ some facts
      → distinct (map normalized state.known_facts) ≡ true
      → (distinct (map normalized (apply_delta state delta).known_facts) ≡ true)
        × (length (apply_delta state delta).known_facts ≤ max_known_facts)
  unfolding apply_delta
  apply_delta-distinct state facts delta new d =
      let merged = merge_facts facts (map normalized state.known_facts) state.known_facts in
      rw new (
        distinct-drop (length merged - max_known_facts) merged (
            merge_facts-distinct facts (map normalized state.known_facts) state.known_facts
              (λ _. refl) d),
        omega (arith, length-take_last max_known_facts merged),
      )
