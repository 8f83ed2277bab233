-- ===== src/Tests.antt =====
-- The tests: runs at concrete inputs, and each theorem with hypotheses at one where they hold.
pub mod Claiming
mod Advising
mod Deciding
mod Failing
mod Indexing
mod Inviting
mod Ranking
mod Reading
mod Running
mod Texts
