-- ===== src/Contracts/Laws.antt =====
-- What an accepted contract, its check and the hook guarantee.
use invarail.Prelude.{
  is_empty, ℕ, ◌≡◌, ◌≤◌, ◌<◌, ◌⊎◌, ◌+◌, suc, refl, Bool, true, false, ◌&&◌, not, List, [], ◌∷◌, map,
  Option, none, some, inl, inr, truthy, keep, all, take, length, count, arith, Option-cases, zero,
  if◌then◌else◌,
}
use invarail.Contracts.{
  Postcondition, file_exists, file_contains, task_exists, fact_saved, answer_mentions,
  CompletionContract, RawCondition, accept_condition, accept_all, extract_contract, Surroundings,
  check_condition, check_contract, Phase, cap, HookReply, accept, send_back, wrap_honestly,
  contract_hook, run_hook,
}

-- Every field is there.
abbrev pub is_filled : Postcondition → Bool
is_filled (file_exists path) = truthy path
is_filled (file_contains path pattern) = truthy path && truthy pattern
is_filled (task_exists pattern) = truthy pattern
is_filled (fact_saved pattern) = truthy pattern
is_filled (answer_mentions pattern) = truthy pattern

accept_condition-is_filled :
    (o : RawCondition) (c : Postcondition) → accept_condition o ≡ some c → is_filled c ≡ true
unfolding accept_condition
accept_condition-is_filled o c h = ground arith

accept_all-is_filled : (os : List RawCondition) → all is_filled (accept_all os) ≡ true
unfolding accept_all
accept_all-is_filled [] = refl
accept_all-is_filled (o ∷ os) = elim (Option-cases (accept_condition o)) [
  | inl dropped ↦ rw (dropped, accept_all) (accept_all-is_filled os)
  | inr (c, kept) ↦
      let here = accept_condition-is_filled o c kept in
      rw (kept, accept_all, all) (ground (arith, here, accept_all-is_filled os))
]

length-accept_all : (os : List RawCondition) → length (accept_all os) ≤ length os
unfolding accept_all
length-accept_all [] = omega arith
length-accept_all (o ∷ os) = elim (Option-cases (accept_condition o)) [
  | inl dropped ↦ rw (dropped, accept_all, length) (omega (arith, length-accept_all os))
  | inr (c, kept) ↦ rw (kept, accept_all, length) (omega (arith, length-accept_all os))
]

length-take {ℓ} : {A : Type ℓ} (n : ℕ) (xs : List A) → length (take n xs) ≤ n
length-take zero xs = omega arith
length-take (suc n) [] = omega arith
length-take (suc n) (x ∷ xs) = omega (arith, length-take n xs)

-- Whatever the model replies, the contract has at most five conditions, each with its fields filled
-- in, and it is checkable only if it has one.
pub extract_contract_bounded :
    (reply : Option (Bool × List RawCondition))
    → (length (extract_contract reply).postconditions ≤ 5)
      × (all is_filled (extract_contract reply).postconditions ≡ true)
      × (((extract_contract reply).checkable && is_empty (extract_contract reply).postconditions)
          ≡ false)
unfolding extract_contract
extract_contract_bounded none = (omega arith, refl, refl)
extract_contract_bounded (some (checkable, stated)) = (
  omega (arith, length-accept_all (take 5 stated), length-take 5 stated),
  accept_all-is_filled (take 5 stated),
  ground arith,
)

none_failed :
    (w : Surroundings) (cs : List Postcondition)
    → is_empty (keep (λ r. not r.pass) (map (check_condition w) cs))
      ≡ all (λ c. (check_condition w c).pass) cs
none_failed w [] = refl
none_failed w (c ∷ cs) = ground (arith, none_failed w cs)

errored_fails :
    (w : Surroundings) (c : Postcondition)
    → ((check_condition w c).errored && (check_condition w c).pass) ≡ false
unfolding check_condition
errored_fails w (file_exists path) = ground arith
errored_fails w (file_contains path pattern) = ground arith
errored_fails w (task_exists pattern) = ground arith
errored_fails w (fact_saved pattern) = ground arith
errored_fails w (answer_mentions pattern) = ground arith

-- A checkable contract with conditions passes exactly if every condition passes; and no condition
-- whose check threw passes.
pub check_contract-pass_iff :
    (contract : CompletionContract) (w : Surroundings)
    → contract.checkable ≡ true
    → is_empty contract.postconditions ≡ false
    → ((check_contract contract w).pass
        ≡ all (λ c. (check_condition w c).pass) contract.postconditions)
      × ((c : Postcondition)
          → ((check_condition w c).errored && (check_condition w c).pass) ≡ false)
unfolding check_contract
check_contract-pass_iff contract w checks some_there =
    (rw (checks, some_there) (none_failed w contract.postconditions), errored_fails w)

abbrev pub is_send_back : HookReply → Bool
is_send_back accept = false
is_send_back (send_back failed) = true
is_send_back (wrap_honestly answer failed) = false

contract_hook_counts :
    (contract : CompletionContract) (budget rejections : ℕ) (phase : Phase) (w : Surroundings)
    → ((is_send_back (contract_hook contract budget phase w rejections).0 ≡ true)
        × ((contract_hook contract budget phase w rejections).1 ≡ suc rejections)
        × (rejections < budget))
      ⊎ ((is_send_back (contract_hook contract budget phase w rejections).0 ≡ false)
          × ((contract_hook contract budget phase w rejections).1 ≡ rejections))
unfolding contract_hook
contract_hook_counts contract budget rejections phase w = ground arith

-- Over the stops of a run that has not exceeded its budget of rejections, the model is sent back
-- at most as often as the budget allows, earlier rejections included.
pub run_hook_budget :
    (contract : CompletionContract) (budget : ℕ) (stops : List (Phase × Surroundings))
    (rejections : ℕ)
    → rejections ≤ budget
    → rejections + count is_send_back (run_hook contract budget stops rejections) ≤ budget
unfolding run_hook
run_hook_budget contract budget [] rejections h = omega (arith, h)
run_hook_budget contract budget ((phase, w) ∷ stops) rejections h =
    elim (contract_hook_counts contract budget rejections phase w) [
      | inl (sent, next, within) ↦
          let rest =
            run_hook_budget contract budget stops (suc rejections) (omega (arith, within)) in
          rw (sent, next) (omega (arith, rest))
      | inr (kept, next) ↦ rw (kept, next) (run_hook_budget contract budget stops rejections h)
    ]

-- At the cap an answer is accepted only if the contract passes; else it is wrapped with the
-- conditions that failed. A model is never sent back there.
contract_hook_cap :
    (contract : CompletionContract) (budget rejections : ℕ) (w : Surroundings)
    → contract_hook contract budget cap w rejections ≡ (
        if (check_contract contract w).pass
        then (accept, rejections)
        else (wrap_honestly w.answer (check_contract contract w).failed, rejections))
unfolding contract_hook
contract_hook_cap contract budget rejections w = ground arith
