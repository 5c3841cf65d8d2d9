-- ===== src/Screening.antt =====
-- Sanctions screening: `normalise_name` of ProofRail/sanctions_determinism.py and
-- `screen_subject_name` of ProofRail/service/screening.py.
pub mod Names
pub mod Decide
pub mod Similarity
pub mod Fraction
