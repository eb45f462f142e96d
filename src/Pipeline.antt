-- ===== src/Pipeline.antt =====
-- src/pipeline/types.ts: stages, the context that they share, and what an executor calls outside.
-- A stage's functions of the context are modelled as they are declared: `when`, `resolveParams` and
-- their like read it, only `execute` of a code stage changes it. A value is `undefined` or JSON.
pub mod Calls
pub mod Executor
use invarail.Prelude.{ℕ, Bool, List, Option, Text, Attempt}
use invarail.Json.{Json, Params}
use invarail.Ollama.ModelCaps.{ThinkCap}

abbrev pub Value : Type 0
Value = Option Json

pub record Step : Type 0 where
  pub tool : Text
  pub params : Params
  pub observation : Text

-- A setting of `think`: a flag or an effort.
pub data Think : Type 0 where
  flag : Bool → Think
  effort : Text → Think

pub record Message : Type 0 where
  pub role : Text
  pub content : Text

-- The fields of `PipelineContext` that hold data, less those that only prompts and sub-dispatches
-- read.
pub record PipelineContext : Type 0 where
  pub user_message : Text
  pub params : Params
  pub stage_results : List (Text × Value)
  pub steps : List Step
  pub history : List Message
  pub model : Text
  pub router_model : Option Text
  pub think : Option Think
  pub context_size : Option ℕ
  pub loop_index : Option ℕ
  pub abort : Bool
  pub answer : Option Text

-- A request to the chat model; the sampling options other than the budget are left out.
pub record ChatRequest : Type 0 where
  pub model : Text
  pub messages : List Message
  pub num_predict : ℕ
  pub num_ctx : Option ℕ
  pub think : Option Think
  pub streamed : Bool

-- A request to extract parameters: `schema`, `examples` and the budget are named by the stage.
pub record ExtractRequest : Type 0 where
  pub model : Text
  pub stage : Text
  pub message : Text
  pub extra_context : Option Text

-- A request for one word; `constrained` if the reply's grammar is fixed to the options.
pub record WordRequest : Type 0 where
  pub model : Text
  pub prompt : Text
  pub constrained : Bool

-- What the context calls outside. Each takes the moment of the call, the number of calls before it,
-- so that nothing is said of how two replies to one question relate.
pub record Outside : Type 0 where
  pub executor : ℕ → Text → Params → Attempt Text
  pub chat : ℕ → ChatRequest → Attempt Text
  pub generate : ℕ → WordRequest → Attempt Text
  pub extract : ℕ → ExtractRequest → Attempt Params
  pub is_cancelled : ℕ → Bool
  -- the order in which concurrent calls complete
  pub completes : ℕ → List Step → List Step
  pub streams : Bool
  pub caps_for : Text → ThinkCap

-- `BaseStage`
pub record BaseStage : Type 0 where
  pub name : Text
  pub when : Option (PipelineContext → Bool)
  pub progress_label : Option Text

pub record ExtractStage : Type 0 where
  pub context : Option (PipelineContext → Text)
  pub fallback : Option (PipelineContext → Params)

pub record LlmStage : Type 0 where
  pub build_prompt : PipelineContext → Text × Text
  pub model : Option Text
  pub max_tokens : Option ℕ
  pub stream : Bool
  pub think : Option Think

pub record LlmBranchStage : Type 0 where
  pub model : Option Text
  pub prompt : Text
  pub options : List Text
  pub fallback : Text

-- `PipelineStage`: the fields of each stage, and what is its own. The calls that a code stage makes
-- happen at its moment.
mutual
  pub data PipelineStage : Type 0 where
    stage : BaseStage → StageKind → PipelineStage

  pub data StageKind : Type 0 where
    extract_stage : ExtractStage → StageKind
    tool_stage : Text → (PipelineContext → Params) → StageKind
    llm_stage : LlmStage → StageKind
    code_stage : (ℕ → PipelineContext → Attempt Value × PipelineContext) → StageKind
    branch_stage : (PipelineContext → Text) → Branches → StageKind
    llm_branch_stage : LlmBranchStage → Branches → StageKind
    loop_stage : ℕ → Stages → (PipelineContext → ℕ → Bool) → StageKind
    parallel_tool_stage : Text → (PipelineContext → List Params) → StageKind

  pub data Stages : Type 0 where
    done : Stages
    then_stage : PipelineStage → Stages → Stages

  pub data Branches : Type 0 where
    no_branch : Branches
    branch_for : Text → Stages → Branches → Branches
