-- ===== src/Resume.antt =====
-- tkdgjs/experiment/run_sweep.py, part by part: a sweep that goes on from saved results.
pub mod Startup
pub mod Run
pub mod Plan
