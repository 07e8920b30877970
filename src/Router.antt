-- ===== src/Router.antt =====
-- The router (assistant/answering/router.py): the policy gate and the splitting of a message, the
-- detection of slots, the relevance gates, and the ordered decision of a question's path.
pub mod Words
pub mod Detector
pub mod Policy
pub mod Gates
pub mod Route
pub mod Detection
mod Best
pub mod Splitting
mod Evidence
mod Agreement
mod Outcomes
mod Tests
