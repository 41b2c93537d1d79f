-- ===== src/Vram.antt =====
-- tkdgjs/experiment/run_vram_experiment.py, part by part.
pub mod Kv
pub mod Gpu
pub mod Measure
pub mod Loop
pub mod Stats
pub mod Request
pub mod Legacy
pub mod Experiment
pub mod Plan
