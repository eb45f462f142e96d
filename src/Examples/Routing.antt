-- ===== src/Examples/Routing.antt =====
-- Messages on their way to a specialist: a paste in two parts, a follow-up, and a specialist that
-- lacks a tool.
use invarail.Prelude.{
  ◌≡◌, refl, true, false, List, [], ◌∷◌, none, some, Text, text, ◌==◌, ok, err, trim,
}
use invarail.Router.{RouterConfig, Env, classify_message}
use invarail.Router.Laws.{classified, Grounded, classify_message-Grounded}
use invarail.Router.Reroute.{Expressions, RerouteSignal, claimed, reroute_signal}
use invarail.Router.Reroute.Gaps.{Lacks, reroute_signal-Lacks}
use invarail.Services.Debounce.{Message}
use invarail.Services.Debounce.Runs.{Event, arrives, wakes, run, idle, arrivals}
use invarail.Services.Debounce.Groups.{Grouped}
use invarail.Services.Debounce.Laws.{run-Grouped}

abbrev router : RouterConfig
router = record { categories = []; default_category = text "chat"; systemone = none }

abbrev env : Env
env = record {
  has_url = λ t. false;
  without_urls = λ t. t;
  has_other_intent = λ t. false;
  override_hits = λ t. [];
  keyword_hits = λ t. [];
  extra_hits = λ t. [];
  is_new_topic = λ t. false;
  is_greeting = λ t. false;
  is_imperative = λ b t. false;
  generate_constrained = λ t. err (text "offline");
  generate_plain = λ t. ok (text " exec\n");
  in_time = λ t. true;
}

classify_message-Grounded_example :
    Grounded env router
      (classified (text "and the second one?") none)
      (some (text "cron"))
      (classify_message env router
        (text "and the second one?")
        (some (text "cron"))
        none).confidence
      (classify_message env router (text "and the second one?") (some (text "cron")) none).category
classify_message-Grounded_example =
    classify_message-Grounded env router (text "and the second one?") (some (text "cron")) none

abbrev expressions : Expressions
expressions = record {
  has_verb = λ c t. false;
  has_claim = λ c t. true;
  intent_clauses = λ t. t ∷ [];
  without_to = λ t. t;
  on_one_line = λ t. t;
}

abbrev signal : RerouteSignal
signal = record { kind = claimed; missing = text "add a task" }

claims_task :
    reroute_signal expressions (text "I have added a task") (text "exec" ∷ []) ≡ some signal
unfolding reroute_signal ◌==◌
claims_task = refl

reroute_signal-Lacks_example :
    Lacks expressions (text "I have added a task") (text "exec" ∷ []) claimed (text "add a task")
reroute_signal-Lacks_example =
    reroute_signal-Lacks expressions (text "I have added a task") (text "exec" ∷ []) signal
      claims_task

abbrev part : Text → Message
part t = record {
  channel = text "web";
  sender_id = text "alice";
  content = t;
  attachments = [];
  is_text_batched = false;
  is_debounced = false;
}

-- A long part, a short one, and the timer.
abbrev paste : List Event
paste =
    arrives 0 (part (text "one two three"))
    ∷ arrives 5 (part (text "four"))
    ∷ wakes 20 (text "web:alice")
    ∷ arrives 30 (part (text "ok"))
    ∷ []

run-Grouped_example : Grouped (text "web:alice") (run 10 8 idle paste) (arrivals paste)
unfolding trim
run-Grouped_example =
    run-Grouped 10 8 paste ((refl, refl), ((refl, refl), (tt, ((refl, refl), tt))))
      (text "web:alice")
