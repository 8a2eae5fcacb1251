-- ===== src/Scoring.antt =====
-- validator/src/gm_validator/scoring.py: scores from the artifact's rows, and the weight vector.
pub mod Json
pub mod Rows
pub mod Weights
