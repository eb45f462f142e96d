-- ===== src/Router/Laws.antt =====
-- Where a message can go, and on what ground.
use invarail.Prelude.{
  ◌≡◌, refl, true, false, ◌&&◌, ◌++◌, Option, none, some, Text, find_first, find_first_passes,
  includes, given, if_holds, ◌⊎◌, inl, inr, arith, Option-cases, Attempt, ok, err, starts_with,
  text, trim, leb,
}
use invarail.Router.{
  Confidence, by_model, by_keyword, by_fallback, by_sticky, ClassifyResult, Decision, SystemOne,
  RouterConfig, Env, sticky_categories, sticky_target, read_answer, is_valid, choose,
  apply_keyword_heuristics, is_likely_follow_up, by, keyword_or_default, is_bare_url, escalate,
  agrees, settle_decision, classify_systemone, bounded, settle_answer, classify_generative,
  classify_by_model, sticks, classify_sticky, classify_message, cap_for_classification, instruction,
}

-- The text that is classified.
abbrev pub classified : Text → Option Text → Text
classified message classify_text = cap_for_classification (instruction message classify_text)

module _ (env : Env) (config : RouterConfig) where
  -- A message stays where the one before it went.
  abbrev pub Sticks : Text → Option Text → Text → Type 0
  Sticks t previous category =
      (p : Text) × (given previous ≡ some p)
      × (includes p sticky_categories ≡ true)
      × (category ≡ sticky_target p)
      × (starts_with (text "!") (trim t) ≡ false)
      × (agrees env config (apply_keyword_heuristics env config t) category ≡ true)

  -- What each confidence says of the category.
  abbrev pub Grounded : Text → Option Text → Confidence → Text → Type 0
  Grounded t previous by_keyword c = is_valid env config c ≡ true
  Grounded t previous by_model c = is_valid env config c ≡ true
  Grounded t previous by_fallback c = (is_valid env config c ≡ true) ⊎ (c ≡ config.default_category)
  Grounded t previous by_sticky c = (is_valid env config c ≡ true) × Sticks t previous c

  module _ (t : Text) (previous : Option Text) where
    abbrev Holds : ClassifyResult → Type 0
    Holds r = Grounded t previous r.confidence r.category

    choose-Holds :
        (o : Option Text) (r : ClassifyResult)
        → ((c : Text) → o ≡ some c → is_valid env config c ≡ true)
        → Holds r
        → Holds (choose o r (by env config by_keyword))
    choose-Holds none r h k = k
    choose-Holds (some c) r h k = h c refl

    keyword_valid :
        (c : Text) → apply_keyword_heuristics env config t ≡ some c → is_valid env config c ≡ true
    unfolding apply_keyword_heuristics
    keyword_valid c h =
        find_first_passes (is_valid env config) (env.keyword_hits t ++ env.extra_hits t) c h

    keyword_or_default-Holds : Holds (keyword_or_default env config t)
    keyword_or_default-Holds =
        choose-Holds (apply_keyword_heuristics env config t) _ keyword_valid (inr refl)

    escalate-Holds : (o : Option Text) → Holds (escalate env config o)
    escalate-Holds none = inr refl
    escalate-Holds (some c) =
        if_holds (λ (x : Text). (is_valid env config x ≡ true) ⊎ (x ≡ config.default_category))
          (is_valid env config c) _ _ inl λ _. inr refl

    settle_decision-Holds :
        (s : SystemOne) (a : Attempt (Option Decision)) → Holds (settle_decision env config s t a)
    settle_decision-Holds s (ok (some d)) =
        if_holds Holds (is_valid env config d.choice && leb s.high_confidence d.confidence) _ _
          (λ h. ground (arith, h)) λ _. escalate-Holds (given s.low_confidence_fallback)
    settle_decision-Holds s (ok none) = keyword_or_default-Holds
    settle_decision-Holds s (err e) = keyword_or_default-Holds

    settle_answer-Holds : (a : Attempt Text) → Holds (settle_answer env config t a)
    settle_answer-Holds (ok r) =
        if_holds Holds (is_valid env config (read_answer r)) _ _ (λ h. h)
          λ _. keyword_or_default-Holds
    settle_answer-Holds (err e) = keyword_or_default-Holds

    classify_by_model-Holds : Holds (classify_by_model env config t)
    unfolding classify_by_model classify_systemone classify_generative
    classify_by_model-Holds = elim (Option-cases config.systemone) [
      | inl e ↦ rw e (settle_answer-Holds (bounded env config t))
      | inr (s, e) ↦ rw e (
          choose-Holds (apply_keyword_heuristics env config t) _ keyword_valid
            (settle_decision-Holds s (s.route t)))
    ]

  -- What is likely to follow up names a category that sticks and is no command.
  follow_up :
      (t p : Text)
      → is_likely_follow_up env config t p ≡ true
      → (starts_with (text "!") (trim t) ≡ false) × (includes p sticky_categories ≡ true)
  unfolding is_likely_follow_up
  follow_up t p h = (ground arith, ground arith)

  classify_sticky-Grounded :
      (t : Text) (previous o : Option Text)
      → given previous ≡ o
      → Grounded t previous
          (classify_sticky env config t o).confidence
          (classify_sticky env config t o).category
  unfolding classify_sticky
  classify_sticky-Grounded t previous none e = classify_by_model-Holds t previous
  classify_sticky-Grounded t previous (some p) e =
      if_holds (λ (r : ClassifyResult). Grounded t previous r.confidence r.category)
        (sticks env config t p) _ _
        (λ h.
          let likely = follow_up t p (ground (arith, h)) in
          (ground (arith, h), (p, e, likely.1, refl, likely.0, ground (arith, h))))
        λ _. classify_by_model-Holds t previous

  -- Every message is classified, whatever the patterns match and the models answer. A category that
  -- comes from a keyword or a model is one of the valid ones; a fallback is a valid one or the default
  -- one; and where the earlier category sticks, there is one, it is a sticky one, the message does not
  -- start with "!", no keyword names another, and the category is valid and the earlier one's target.
  pub classify_message-Grounded :
      (message : Text) (previous classify_text : Option Text)
      → Grounded
          (classified message classify_text)
          previous
          (classify_message env config message previous classify_text).confidence
          (classify_message env config message previous classify_text).category
  unfolding classify_message
  classify_message-Grounded message previous classify_text =
      let t = classified message classify_text in
      if_holds (λ (r : ClassifyResult). Grounded t previous r.confidence r.category)
        (is_bare_url env config t) _ _ (λ h. ground (arith, h))
        λ _.
          choose-Holds t previous (find_first (is_valid env config) (env.override_hits t)) _
            (find_first_passes (is_valid env config) (env.override_hits t))
            (classify_sticky-Grounded t previous (given previous) refl)
