-- ===== src/Dispatch/Gate/Laws.antt =====
-- What runs, and what is asked first.
use invarail.Prelude.{
  ℕ, ◌+◌, ◌<◌, ◌≡◌, refl, true, ◌&&◌, [], ◌∷◌, ◌++◌, none, some, includes, is_some, or_else, arith,
  if◌then◌else◌,
}
use invarail.Registry.{Call, get_tool}
use invarail.Registry.Laws.{calls-scoped_execute}
use invarail.Security.Ledger.{PendingAction, ttl_ms, find_by_id}
use invarail.Security.Ledger.Laws.{IsNew, find_by_id-record_action}
use invarail.Dispatch.Gate.{
  Dispatch, Moment, GateState, unknown, preview_of, ask_first, approval_of, gated_execute,
}

module _ (d : Dispatch) (m : Moment) (call : Call) (s : GateState) where
  -- A call runs exactly if its tool is in scope and registered, and either it need not ask first or
  -- a grant covers it. It then runs once, as it was made; otherwise nothing runs.
  pub calls-gated_execute : (gated_execute d m call s).1.calls ≡ (
      if includes call.tool d.allowed_tools
        && is_some (get_tool call.tool d.registry)
        && (if includes call.tool d.confirm_set then is_some (approval_of d call s) else true)
      then s.calls ++ call ∷ []
      else s.calls)
  unfolding gated_execute
  calls-gated_execute =
      ground (arith, calls-scoped_execute d.allowed_tools d.registry d.run call s.calls)

  gated_execute_asks :
      includes call.tool d.allowed_tools ≡ true
      → includes call.tool d.confirm_set ≡ true
      → approval_of d call s ≡ none
      → gated_execute d m call s ≡ ask_first d m call s
  unfolding gated_execute
  gated_execute_asks scope asks ungranted = rw (scope, asks, ungranted) refl

  -- Where a tool in scope must ask first, no grant covers the call, and the ledger is written under
  -- an id that is new: nothing runs, and until it expires the sender finds the call as it was made
  -- under that id.
  pub gated_execute_previews :
      (later : ℕ)
      → includes call.tool d.allowed_tools ≡ true
      → includes call.tool d.confirm_set ≡ true
      → approval_of d call s ≡ none
      → m.lands ≡ true
      → IsNew m.id (or_else s.ledger [])
      → later < m.now + ttl_ms
      → ((gated_execute d m call s).1.calls ≡ s.calls)
        × ((a : PendingAction) × (find_by_id m.id
                (or_else d.principal unknown)
                later
                (gated_execute d m call s).1.ledger
              ≡ some a)
            × (a.preview ≡ preview_of d call))
  unfolding ask_first
  gated_execute_previews later scope asks ungranted lands new early =
      let asked = gated_execute_asks scope asks ungranted in
      let (a, recorded, found, same) =
        find_by_id-record_action m.id m.now m.read_at ttl_ms later (preview_of d call) s.ledger new
          early in
      rw (asked, lands) (refl, (a, found, same))
