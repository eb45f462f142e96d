-- ===== src/Security/Patterns/Examples.antt =====
-- The recognisers on messages that the source's comments name.
use invarail.Prelude.{◌≡◌, refl, true, false, some, none, text}
use invarail.Security.Patterns.{
  deny_match, always_match, confirmation_match, near_miss, parse_confirmation_id,
}

reads_ids :
    (deny_match (text "Cancel 15E8B662 .") ≡ some (text "15E8B662"))
    × (always_match (text "always") ≡ none)
    × (confirmation_match (text "confirm 3fa2c1b9") ≡ some (some (text "3fa2c1b9")))
    × (confirmation_match (text "yes,do it!") ≡ some none)
    × (confirmation_match (text "Approved.") ≡ some none)
    × (confirmation_match (text "confirm my flight") ≡ none)
    × (confirmation_match (text "confirm 2") ≡ none)
    × (near_miss (text "confirm 2") ≡ true)
    × (near_miss (text "cancel it") ≡ false)
    × (parse_confirmation_id (text " Go ahead ABCDEF12") ≡ some (text "abcdef12"))
unfolding deny_match always_match confirmation_match near_miss parse_confirmation_id
reads_ids = (refl, refl, refl, refl, refl, refl, refl, refl, refl, refl)
