-- ===== src/Contracts.antt =====
-- src/contracts/completion-contract.ts: what a run must have done before its answer is accepted.
pub mod Laws
use invarail.Prelude.{
  is_empty, ℕ, suc, Bool, true, false, ◌&&◌, ◌||◌, not, List, [], ◌∷◌, ◌++◌, map, Option, none,
  some, Text, text, ◌==◌, truthy, trim, keep, any, take, ltb, length, if◌then◌else◌,
}

pub data Postcondition : Type 0 where
  file_exists : Text → Postcondition
  file_contains : Text → Text → Postcondition
  task_exists fact_saved answer_mentions : Text → Postcondition

pub record CompletionContract : Type 0 where
  pub checkable : Bool
  pub postconditions : List Postcondition

-- A condition as the model stated it: its kind as a string, and the fields that are strings.
pub record RawCondition : Type 0 where
  pub kind : Text
  pub path : Option Text
  pub pattern : Option Text

-- `typeof x === 'string' ? x.trim() : ''`
abbrev pub trimmed : Option Text → Text
trimmed none = []
trimmed (some s) = trim s

-- The condition that is kept, if its kind is known and its fields are there.
unfoldable pub accept_condition : RawCondition → Option Postcondition
accept_condition o =
    let path = trimmed o.path in
    let pattern = trimmed o.pattern in
    if o.kind == text "file_exists" && truthy path
    then some (file_exists path)
    else if o.kind == text "file_contains" && truthy path && truthy pattern
    then some (file_contains path pattern)
    else if o.kind == text "task_exists" && truthy pattern
    then some (task_exists pattern)
    else if o.kind == text "fact_saved" && truthy pattern
    then some (fact_saved pattern)
    else if o.kind == text "answer_mentions" && truthy pattern
    then some (answer_mentions pattern)
    else none

unfoldable pub accept_all : List RawCondition → List Postcondition
unfolding accept_condition
accept_all [] = []
accept_all (o ∷ os) =
    let rest = accept_all os in elim (accept_condition o) [ none ↦ rest | some c ↦ c ∷ rest ]

-- `extractContract` on the model's reply: `none` where it is not the JSON that was asked for.
unfoldable pub extract_contract : Option (Bool × List RawCondition) → CompletionContract
unfolding accept_all
extract_contract none = record { checkable = false; postconditions = [] }
extract_contract (some (checkable, stated)) =
    let conditions = accept_all (take 5 stated) in
    record { checkable = checkable && not (is_empty conditions); postconditions = conditions }

-- What the checks read. Paths are resolved in the workspace; `read_file` gives none where the read
-- throws, and a store is none where it is not there. `matches` is JavaScript's match of a pattern,
-- a regular expression or a substring.
pub record Surroundings : Type 0 where
  pub exists_file : Text → Bool
  pub read_file : Text → Option Text
  pub task_titles : Option (List Text)
  pub fact_texts : Option (List Text)
  pub answer : Text
  pub matches : Text → Text → Bool

-- `ConditionResult` without the wording of its detail.
pub record ConditionResult : Type 0 where
  pub condition : Postcondition
  pub pass : Bool
  pub errored : Bool

abbrev result : Postcondition → Bool → ConditionResult
result c pass = record { condition = c; pass = pass; errored = false }

abbrev any_matches : (Text → Bool) → Option (List Text) → Bool
any_matches p none = false
any_matches p (some ts) = any p ts

unfoldable pub check_condition : Surroundings → Postcondition → ConditionResult
check_condition w (file_exists path) = result (file_exists path) (w.exists_file path)
check_condition w (file_contains path pattern) =
    if w.exists_file path
    then (elim (w.read_file path) [
      | none ↦ record { condition = file_contains path pattern; pass = false; errored = true }
      | some content ↦ result (file_contains path pattern) (w.matches pattern content)
    ])
    else result (file_contains path pattern) false
check_condition w (task_exists pattern) =
    result (task_exists pattern) (any_matches (w.matches pattern) w.task_titles)
check_condition w (fact_saved pattern) =
    result (fact_saved pattern) (any_matches (w.matches pattern) w.fact_texts)
check_condition w (answer_mentions pattern) =
    result (answer_mentions pattern) (w.matches pattern w.answer)

pub record ContractResult : Type 0 where
  pub checkable : Bool
  pub pass : Bool
  pub results : List ConditionResult
  pub failed : List ConditionResult

abbrev no_gate : ContractResult
no_gate = record { checkable = false; pass = true; results = []; failed = [] }

unfoldable pub check_contract : CompletionContract → Surroundings → ContractResult
unfolding check_condition
check_contract contract w =
    let results = map (check_condition w) contract.postconditions in
    let failed = keep (λ r. not r.pass) results in
    if not contract.checkable || is_empty contract.postconditions
    then no_gate
    else record { checkable = true; pass = is_empty failed; results = results; failed = failed }

pub data Phase : Type 0 where
  natural cap : Phase

-- What the hook answers: the two rejections are `contractFeedback` with four more iterations, and
-- `wrapAnswerHonestly` of the answer.
pub data HookReply : Type 0 where
  accept : HookReply
  send_back : List ConditionResult → HookReply
  wrap_honestly : Text → List ConditionResult → HookReply

abbrev at_cap : Phase → Bool
at_cap natural = false
at_cap cap = true

-- `buildContractHook`: one call of the hook, with the rejections so far.
unfoldable pub contract_hook : CompletionContract → ℕ → Phase → Surroundings → ℕ → HookReply × ℕ
unfolding check_contract
contract_hook contract budget phase w rejections =
    let checked = check_contract contract w in
    let actionable = keep (λ r. not r.errored) checked.failed in
    if checked.pass
    then (accept, rejections)
    else if is_empty actionable && not (at_cap phase)
    then (accept, rejections)
    else if at_cap phase
    then (wrap_honestly w.answer checked.failed, rejections)
    else if ltb rejections budget
    then (send_back checked.failed, suc rejections)
    else (accept, rejections)

-- The answers of a run: what is found at each stop, in turn.
unfoldable pub run_hook : CompletionContract → ℕ → List (Phase × Surroundings) → ℕ → List HookReply
unfolding contract_hook
run_hook contract budget [] rejections = []
run_hook contract budget ((phase, w) ∷ stops) rejections =
    let (reply, next) = contract_hook contract budget phase w rejections in
    reply ∷ run_hook contract budget stops next
