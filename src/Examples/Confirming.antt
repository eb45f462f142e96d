-- ===== src/Examples/Confirming.antt =====
-- Confirmations, the ledger, grants and identities at concrete inputs.
use invarail.Prelude.{
  ◌+◌, ◌≤◌, ◌≡◌, ◌≢◌, ◌⊎◌, refl, true, false, [], ◌∷◌, none, some, Text, text, trim, arith, lookup,
  ◌==◌,
}
use invarail.Examples.Data.{
  alice, echo, config, echo_tool, params, preview, action, world, says, grant,
}
use invarail.Identity.{resolve_principal, alias_map, alias_map_from}
use invarail.Security.Patterns.{deny_match}
use invarail.Security.Ledger.{PendingAction, ttl_ms, load, consume, record_action, find_by_id}
use invarail.Security.Ledger.Laws.{find_by_id-record_action}
use invarail.Security.Ledger.Counts.{stored, consume_spends}
use invarail.Security.Grants.{
  StandingGrant, find_match, grant_target_for, standing, Origin, origin_target,
  resolve_grant_approval,
}
use invarail.Security.Grants.Laws.{Targets, resolve_grant_approval_sound}
use invarail.Security.Exchange.{read_message, replied, cancelled}
use invarail.Security.Confirm.{handle_confirmation}
use invarail.Security.Confirm.Runs.{RunsStored, handle_confirmation-RunsStored}
use invarail.Security.Confirm.Denial.{deny_not_persisted}

abbrev yes : Text
yes = text "confirm 3fa2c1b9"

handle_confirmation-RunsStored_example :
    ((handle_confirmation (says yes true) world).1.calls ≡ [])
    ⊎ RunsStored
        (says yes true)
        (read_message (trim yes))
        world
        (handle_confirmation (says yes true) world).1
handle_confirmation-RunsStored_example = handle_confirmation-RunsStored (says yes true) world

different : text "0" ≢ text "3fa2c1b9"
different e = ground (arith, e)

consume_spends_example :
    (true ≡ true)
    × (action.id ≡ text "3fa2c1b9")
    × (stored (text "3fa2c1b9") (consume (text "3fa2c1b9") 12 true world.ledger).1 + 1
        ≤ stored (text "3fa2c1b9") world.ledger)
    × (stored (text "0") (consume (text "3fa2c1b9") 12 true world.ledger).1 ≡ 0)
unfolding consume load ◌==◌
consume_spends_example =
    consume_spends (text "3fa2c1b9") (text "0") 12 true world.ledger action different refl

find_by_id-record_action_example :
    (a : PendingAction) × ((record_action (text "0") 5 6 ttl_ms true preview world.ledger).0
      ≡ some a)
    × (find_by_id
          (text "0")
          alice
          100
          (record_action (text "0") 5 6 ttl_ms true preview world.ledger).1
        ≡ some a)
    × (a.preview ≡ preview)
unfolding ◌==◌
find_by_id-record_action_example =
    find_by_id-record_action (text "0") 5 6 ttl_ms 100 preview world.ledger (refl, tt) (omega arith)

resolve_grant_approval_sound_example :
    (target : Text) × Targets echo_tool params target
    × (((g : StandingGrant) × (find_match echo target alice (some (grant ∷ [])) ≡ some g)
          × (g.tool ≡ echo)
          × (g.target ≡ target)
          × (g.principal ≡ alice))
        ⊎ ((o : Origin) × (none ≡ some o) × (target ≡ origin_target o)))
unfolding resolve_grant_approval grant_target_for find_match ◌==◌ lookup trim
resolve_grant_approval_sound_example =
    resolve_grant_approval_sound echo_tool params alice none (some (grant ∷ [])) standing refl

abbrev no : Text
no = text "cancel 3fa2c1b9"

deny_not_persisted_example :
    ((handle_confirmation (says no false) world).0 ≡ replied (cancelled echo) none)
    × ((handle_confirmation (says no false) world).1.ledger ≡ world.ledger)
    × (find_by_id
          (text "3fa2c1b9")
          (resolve_principal alice config.people)
          11
          (handle_confirmation (says no false) world).1.ledger
        ≡ some action)
unfolding read_message find_by_id load resolve_principal trim ◌==◌ deny_match lookup alias_map
    alias_map_from
deny_not_persisted_example =
    deny_not_persisted (says no false) (text "3fa2c1b9") world action refl refl refl
