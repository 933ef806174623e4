-- ===== src/Model.antt =====
-- internal/model/model.go: the vocabularies of the wire format and what a user's status amounts to.
pub mod Vocabulary
pub mod UserState
