-- ===== src/Security/Confirm/Laws.antt =====
-- What one confirmation may do.
use invarail.Prelude.{◌≡◌, ◌⊎◌, inl, inr, refl, [], ◌∷◌, ◌++◌, Option, none, some, arith}
use invarail.Registry.{Outcome, returned, threw}
use invarail.Registry.Laws.{calls-scoped_execute}
use invarail.Security.Ledger.{PendingAction, consume}
use invarail.Security.Policy.{Verdict, allowed, denied, check_tool_policy}
use invarail.Security.Exchange.{World, Event, Reading}
use invarail.Security.Confirm.{
  stored_query, stored_call, finish, execute_action, after_verdict, after_consume, authorize_action,
}

calls-finish :
    (e : Event) (r : Reading) (a : PendingAction) (o : Outcome) (w : World)
    → (finish e r a o w).1.calls ≡ w.calls
unfolding finish
calls-finish e r a (threw m) w = refl
calls-finish e r a (returned o) w = ground arith

ledger-finish :
    (e : Event) (r : Reading) (a : PendingAction) (o : Outcome) (w : World)
    → (finish e r a o w).1.ledger ≡ w.ledger
unfolding finish
ledger-finish e r a (threw m) w = refl
ledger-finish e r a (returned o) w = ground arith

-- Running the stored action adds its one call, or none if the tool is not registered.
calls-execute_action :
    (e : Event) (r : Reading) (a : PendingAction) (w : World)
    → ((execute_action e r a w).1.calls ≡ w.calls)
      ⊎ ((execute_action e r a w).1.calls ≡ w.calls ++ stored_call e a ∷ [])
unfolding execute_action
calls-execute_action e r a w =
    rw calls-finish (
      ground (arith, calls-scoped_execute (a.tool ∷ []) e.registry e.run (stored_call e a) w.calls))

ledger-execute_action :
    (e : Event) (r : Reading) (a : PendingAction) (w : World)
    → (execute_action e r a w).1.ledger ≡ w.ledger
unfolding execute_action
ledger-execute_action e r a w = rw ledger-finish

-- What makes a call run: its entry was spent by a write that landed, and the policy of now allows
-- it.
abbrev pub Authorized : Event → PendingAction → World → Type 0
Authorized e a w =
    ((b : PendingAction) × ((consume a.id e.consumed_at e.consume_lands w.ledger).0 ≡ some b))
    × (check_tool_policy e.config e.registry (stored_query e a) ≡ allowed)

abbrev pub Ran : Event → PendingAction → World → World → Type 0
Ran e a w w' = Authorized e a w × (w'.calls ≡ w.calls ++ stored_call e a ∷ [])

calls-after_verdict :
    (e : Event) (r : Reading) (a : PendingAction) (v : Verdict) (w : World)
    → ((after_verdict e r a v w).1.calls ≡ w.calls)
      ⊎ ((v ≡ allowed) × ((after_verdict e r a v w).1.calls ≡ w.calls ++ stored_call e a ∷ []))
unfolding after_verdict
calls-after_verdict e r a (denied reason) w = inl refl
calls-after_verdict e r a allowed w = elim (calls-execute_action e r a w) [
  | inl same ↦ inl same
  | inr one ↦ inr (refl, one)
]

calls-after_consume :
    (e : Event) (r : Reading) (a : PendingAction) (spent : Option PendingAction) (w : World)
    → ((after_consume e r a spent w).1.calls ≡ w.calls)
      ⊎ (((b : PendingAction) × (spent ≡ some b))
          × (check_tool_policy e.config e.registry (stored_query e a) ≡ allowed)
          × ((after_consume e r a spent w).1.calls ≡ w.calls ++ stored_call e a ∷ []))
unfolding after_consume
calls-after_consume e r a none w = inl refl
calls-after_consume e r a (some b) w =
    elim (calls-after_verdict e r a (check_tool_policy e.config e.registry (stored_query e a)) w) [
      | inl same ↦ inl same
      | inr (ok, one) ↦ inr ((b, refl), ok, one)
    ]

pub calls-authorize_action :
    (e : Event) (r : Reading) (a : PendingAction) (w : World)
    → ((authorize_action e r a w).1.calls ≡ w.calls) ⊎ Ran e a w (authorize_action e r a w).1
unfolding authorize_action
calls-authorize_action e r a w =
    let (spent, ledger) = consume a.id e.consumed_at e.consume_lands w.ledger in
    elim (calls-after_consume e r a spent (record w { ledger = ledger })) [
      | inl same ↦ inl same
      | inr (landed, ok, one) ↦ inr ((landed, ok), one)
    ]

pub ledger-authorize_action :
    (e : Event) (r : Reading) (a : PendingAction) (w : World)
    → (authorize_action e r a w).1.ledger ≡ (consume a.id e.consumed_at e.consume_lands w.ledger).1
unfolding authorize_action after_consume after_verdict
ledger-authorize_action e r a w = ground (
  arith,
  ledger-execute_action e r a
      (record w { ledger = (consume a.id e.consumed_at e.consume_lands w.ledger).1 }),
)
