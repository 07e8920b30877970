-- ===== src/Understanding.antt =====
-- The understanding of a turn (assistant/answering/understanding.py): its reading by the vocabularies
-- and the model, and the request that it resolves to with what the conversation knows.
pub mod Readings
mod Precedence
pub mod Names
pub mod Denials
pub mod Resolving
pub mod Testimony
mod Inheritance
mod Grounding
mod Remembering
mod Tests
