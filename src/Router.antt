-- ===== src/Router.antt =====
-- src/router/classifier.ts: which specialist a message goes to. A table of regular expressions is the
-- function that gives the categories of those that match, in the order of the table; the models that
-- are asked are functions of the text, and what they cost is left out.
pub mod Laws
pub mod Reroute
use invarail.Prelude.{
  ℕ, ◌-◌, Bool, true, false, ◌&&◌, ◌||◌, not, List, [], ◌∷◌, ◌++◌, Option, none, some, Text, text,
  ◌==◌, ltb, leb, nat_eq, length, take, take_last, keep, is_empty, find_first, includes,
  starts_with, or_else, given, truthy, trim, lower, Attempt, ok, err, if◌then◌else◌,
}

pub data Confidence : Type 0 where
  by_model by_keyword by_fallback by_sticky : Confidence

pub record ClassifyResult : Type 0 where
  pub category : Text
  pub confidence : Confidence

-- The answer of the decision model; its confidence is a count of thousandths.
pub record Decision : Type 0 where
  pub choice : Text
  pub confidence : ℕ

-- `SystemOneRouter`
pub record SystemOne : Type 0 where
  pub route : Text → Attempt (Option Decision)
  pub high_confidence : ℕ
  pub low_confidence_fallback : Option Text

pub record RouterConfig : Type 0 where
  pub categories : List Text
  pub default_category : Text
  -- the decision model, where the mode is `systemone` and there is a URL
  pub systemone : Option SystemOne

pub record Env : Type 0 where
  pub has_url : Text → Bool
  pub without_urls : Text → Text
  pub has_other_intent : Text → Bool
  pub override_hits : Text → List Text
  pub keyword_hits : Text → List Text
  -- the patterns of `router.keywordHints` that compile
  pub extra_hits : Text → List Text
  pub is_new_topic : Text → Bool
  pub is_greeting : Text → Bool
  -- the imperatives of the language, and the German ones with a decision model
  pub is_imperative : Bool → Text → Bool
  -- the classifier with the grammar, without it, and whether an answer came in time
  pub generate_constrained : Text → Attempt Text
  pub generate_plain : Text → Attempt Text
  pub in_time : Text → Bool

abbrev pub default_categories : List Text
default_categories =
    text "chat"
    ∷ text "web_search"
    ∷ text "memory"
    ∷ text "exec"
    ∷ text "cron"
    ∷ text "message"
    ∷ text "website"
    ∷ text "multi"
    ∷ text "task"
    ∷ text "research"
    ∷ text "image"
    ∷ text "code_gen"
    ∷ []

unfoldable pub valid_categories : RouterConfig → List Text
valid_categories c = if is_empty c.categories then default_categories else c.categories

abbrev pub website : Text
website = text "website"

-- The head and the tail of a long text: 390 of the 600 units are the head's.
unfoldable pub cap_for_classification : Text → Text
cap_for_classification t =
    if leb (length t) 600 then t else take 390 t ++ (text "\n…\n" ++ take_last 210 t)

abbrev pub sticky_categories : List Text
sticky_categories = text "chat" ∷ text "briefing" ∷ text "cron" ∷ []

abbrev pub briefing : Text
briefing = text "briefing"

-- A reply to a briefing lands in chat.
abbrev pub sticky_target : Text → Text
sticky_target previous = if previous == briefing then text "chat" else previous

abbrev answer_unit : ℕ → Bool
answer_unit c = (leb b'a' c && leb c b'z') || nat_eq c b'_'

-- What is done with a category, and without one.
abbrev pub choose : Option Text → ClassifyResult → (Text → ClassifyResult) → ClassifyResult
choose none otherwise f = otherwise
choose (some c) otherwise f = f c

unfoldable pub read_answer : Text → Text
unfolding trim
read_answer t = keep answer_unit (lower (trim t))

-- `classifyText?.trim() ? classifyText : message`
abbrev pub instruction : Text → Option Text → Text
instruction message none = message
instruction message (some t) = if truthy (trim t) then t else message

module _ (env : Env) (config : RouterConfig) where
  abbrev pub is_valid : Text → Bool
  is_valid c = includes c (valid_categories config)

  -- The first hint that matches and whose category there is.
  unfoldable pub apply_keyword_heuristics : Text → Option Text
  unfolding valid_categories includes
  apply_keyword_heuristics t = find_first is_valid (env.keyword_hits t ++ env.extra_hits t)

  abbrev has_decision_model : Bool
  has_decision_model = elim config.systemone [ none ↦ false | some s ↦ true ]

  unfoldable pub is_likely_follow_up : Text → Text → Bool
  unfolding trim starts_with includes
  is_likely_follow_up t previous =
      let trimmed = trim t in
      if starts_with (text "!") trimmed || not (includes previous sticky_categories)
      then false
      else if env.is_imperative has_decision_model trimmed
      then false
      else if ltb 200 (length trimmed)
      then true
      else if previous == briefing
      then true
      else not (env.is_new_topic trimmed) && not (env.is_greeting trimmed)

  abbrev pub by : Confidence → Text → ClassifyResult
  by how category = record { category = category; confidence = how }

  abbrev pub keyword_or_default : Text → ClassifyResult
  keyword_or_default t =
      choose (apply_keyword_heuristics t) (by by_fallback config.default_category) (by by_keyword)

  abbrev pub is_bare_url : Text → Bool
  is_bare_url t =
      let rest = trim (env.without_urls t) in
      env.has_url t && is_valid website && ltb (length rest) 60 && not (env.has_other_intent rest)

  -- Where a decision is not trusted.
  abbrev pub escalate : Option Text → ClassifyResult
  escalate none = by by_fallback config.default_category
  escalate (some c) = by by_fallback (if is_valid c then c else config.default_category)

  abbrev pub settle_decision : SystemOne → Text → Attempt (Option Decision) → ClassifyResult
  settle_decision s t (ok (some d)) =
      if is_valid d.choice && leb s.high_confidence d.confidence
      then by by_model d.choice
      else escalate (given s.low_confidence_fallback)
  settle_decision s t (ok none) = keyword_or_default t
  settle_decision s t (err e) = keyword_or_default t

  -- Keywords first, then the decision model behind its gate.
  unfoldable pub classify_systemone : SystemOne → Text → ClassifyResult
  unfolding apply_keyword_heuristics
  classify_systemone s t =
      choose (apply_keyword_heuristics t) (settle_decision s t (s.route t)) (by by_keyword)

  abbrev pub attempt : Attempt Text → Text → Attempt Text
  attempt (ok r) t = ok r
  attempt (err e) t = env.generate_plain t

  abbrev pub bounded : Text → Attempt Text
  bounded t =
      if env.in_time t then attempt (env.generate_constrained t) t else err (text "ROUTER_TIMEOUT")

  abbrev pub settle_answer : Text → Attempt Text → ClassifyResult
  settle_answer t (ok r) =
      let raw = read_answer r in if is_valid raw then by by_model raw else keyword_or_default t
  settle_answer t (err e) = keyword_or_default t

  -- The model first, then keywords.
  unfoldable pub classify_generative : Text → ClassifyResult
  unfolding apply_keyword_heuristics read_answer
  classify_generative t = settle_answer t (bounded t)

  unfoldable pub classify_by_model : Text → ClassifyResult
  unfolding classify_systemone classify_generative
  classify_by_model t = elim config.systemone [
    | some s ↦ classify_systemone s t
    | none ↦ classify_generative t
  ]

  -- No keyword says otherwise.
  abbrev pub agrees : Option Text → Text → Bool
  agrees none target = true
  agrees (some c) target = c == target

  abbrev pub sticks : Text → Text → Bool
  sticks t previous =
      is_valid (sticky_target previous)
      && is_likely_follow_up t previous
      && agrees (apply_keyword_heuristics t) (sticky_target previous)

  unfoldable pub classify_sticky : Text → Option Text → ClassifyResult
  unfolding is_likely_follow_up classify_by_model
  classify_sticky t none = classify_by_model t
  classify_sticky t (some previous) =
      if sticks t previous then by by_sticky (sticky_target previous) else classify_by_model t

  -- `classifyMessage`, less the shadow router, which only watches. `classify_text` is the instruction
  -- without the attachments.
  unfoldable pub classify_message : Text → Option Text → Option Text → ClassifyResult
  unfolding cap_for_classification classify_sticky
  classify_message message previous classify_text =
      let t = cap_for_classification (instruction message classify_text) in
      if is_bare_url t
      then by by_keyword website
      else choose (find_first is_valid (env.override_hits t)) (classify_sticky t (given previous))
          (by by_keyword)
