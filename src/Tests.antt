-- ===== src/Tests.antt =====
-- Runs of the model on concrete inputs, and the theorems at inputs that meet their hypotheses.
pub mod Data
mod Measuring
mod Serving
mod Experiments
mod Sweeps
mod Completes
mod Resumes
mod Timelines
mod FullSweeps
mod Singles
mod Directs
mod Loggeds
mod Encodings
