-- ===== src/Ollama/ModelCaps.antt =====
-- src/ollama/model-caps.ts: the declared control over thinking of a model, by the longest prefix of
-- its id. The other capabilities of a row are not read by the code modelled here.
use invarail.Prelude.{
  ◌&&◌, List, [], ◌∷◌, Option, none, some, Text, text, lookup, length, starts_with, ltb, lower,
  if◌then◌else◌, truthy,
}

pub data ThinkCap : Type 0 where
  toggle levels full cannot unprobed : ThinkCap

abbrev row : Text → ThinkCap → Text × ThinkCap
row prefix cap = (prefix, cap)

unfoldable pub model_caps : List (Text × ThinkCap)
model_caps =
    row (text "deepseek") toggle
    ∷ row (text "deepseek-coder") cannot
    ∷ row (text "phi4") cannot
    ∷ row (text "qwen3-embedding") cannot
    ∷ row (text "qwen") unprobed
    ∷ row (text "qwen2.5") cannot
    ∷ row (text "qwen3") toggle
    ∷ row (text "qwen3-coder") cannot
    ∷ row (text "qwen3.5") toggle
    ∷ row (text "qwen3.6") toggle
    ∷ row (text "qwen3.8") full
    ∷ row (text "gemma") unprobed
    ∷ row (text "gemma4") toggle
    ∷ row (text "muse-glimmer") toggle
    ∷ row (text "nemotron") toggle
    ∷ row (text "glm") toggle
    ∷ row (text "devstral") cannot
    ∷ row (text "llama4") cannot
    ∷ row (text "gpt-oss") levels
    ∷ row (text "llava") unprobed
    ∷ []

-- The loop over the prefixes, from the best one so far.
unfoldable pub best_prefix : Text → List (Text × ThinkCap) → Text → Text
best_prefix id [] best = best
best_prefix id ((prefix, cap) ∷ rows) best =
    best_prefix id rows
      (if starts_with prefix id && ltb (length best) (length prefix) then prefix else best)

abbrev or_unprobed : Option ThinkCap → ThinkCap
or_unprobed none = unprobed
or_unprobed (some cap) = cap

-- `capsFor(modelId).think`, for a table of capabilities.
unfoldable pub caps_in : List (Text × ThinkCap) → Text → ThinkCap
unfolding best_prefix
caps_in table model_id =
    let best = best_prefix (lower model_id) table [] in
    if truthy best then or_unprobed (lookup best table) else unprobed

unfoldable pub caps_for : Text → ThinkCap
unfolding caps_in model_caps
caps_for = caps_in model_caps
