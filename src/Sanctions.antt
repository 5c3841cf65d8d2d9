-- ===== src/Sanctions.antt =====
-- The sanctions pipeline of ProofRail/sanctions_determinism.py: the names of the three lists, the
-- subjects, the match and the version of the lists.
pub mod Xml
pub mod Subjects
pub mod Sources
pub mod Pipeline
