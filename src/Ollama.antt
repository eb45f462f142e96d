-- ===== src/Ollama.antt =====
-- src/ollama: what is declared of the models that are served.
pub mod ModelCaps
