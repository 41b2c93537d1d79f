-- ===== src/Complete.antt =====
-- tkdgjs/experiment/run_sweep_complete.py, part by part.
pub mod Probe
pub mod Run
pub mod Graph
