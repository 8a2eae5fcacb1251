-- ===== src/Economics.antt =====
-- validator/src/gm_validator/alpha_economics.py: from consumption to a u16 weight vector.
pub mod Epoch
pub mod Water
pub mod Normalize
mod Tests
