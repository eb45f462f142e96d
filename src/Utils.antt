-- ===== src/Utils.antt =====
-- src/utils: helpers on texts.
pub mod Split
