-- ===== src/Sweep.antt =====
-- tkdgjs/experiment/run_sweep_experiment.py, part by part. What it shares with
-- run_vram_experiment.py word for word is in Vram, Server and Disk.
pub mod Kv
pub mod Measure
pub mod Layout
pub mod Loop
pub mod Report
pub mod Experiment
pub mod Plan
