-- ===== src/Turn.antt =====
-- One turn of a conversation (assistant/turn/graph.py): the state that its nodes share, the nodes, the
-- edges between them, and the last check of an answer.
pub mod State
pub mod Guard
pub mod Nodes
pub mod Answers
pub mod Graph
mod Verified
mod Ending
mod Reached
mod Tests
