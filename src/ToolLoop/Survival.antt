-- ===== src/ToolLoop/Survival.antt =====
-- What becomes of a usable answer by the end of a run of the tool loop.
use invarail.Prelude.{Option}
