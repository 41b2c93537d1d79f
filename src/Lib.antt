-- ===== src/Lib.antt =====
-- The VRAM experiments: scripts that start a vLLM server with LMCache in native or in CacheGen mode,
-- watch the GPU memory while a request runs, and report the memory, the latency and the size of the
-- cache on disk.
--
-- Parts, and the files that model them. The code is in tkdgjs/experiment.
-- - Vram/Kv, Vram/Gpu, Vram/Measure: `FullVRAMMonitor` of run_vram_experiment.py. What nvidia-smi, the
--   metrics page and the torch allocator answer is an argument (Answer); the result is a snapshot
--   that divides the used memory into regions.
-- - Vram/Loop, Vram/Stats: `FullVRAMMonitorLoop`. The object is a record; its thread is a phase in it
--   and a function for one step. The main thread's `start` and `stop` come between any two steps,
--   so a run is a list of steps with what each of them reads.
-- - Vram/Legacy: `VRAMMonitor`. One round of its loop is one step.
-- - Vram/Request: `send_request_and_measure`, from the lines of the reply with their times.
-- - Vram/Experiment, Vram/Plan: `run_single_experiment`; `run_experiment_for_mode` and `main`. What
--   they do to the machine is a log of events (Host): servers killed and started, sleeps, files
--   written. A kill by name ends every server at once.
-- - Server: `wait_for_vllm`, `create_lmcache_config` and what `start_vllm` starts.
-- - Disk: `get_disk_usage` and the two versions of `clear_lmcache_disk`, over a tree of files.
-- - Sweep: run_sweep_experiment.py, part by part as in Vram: Sweep/Kv, Sweep/Measure, Sweep/Layout,
--   Sweep/Loop, Sweep/Report, Sweep/Experiment and Sweep/Plan. The functions that both scripts have
--   word for word are modelled once.
-- - Complete: run_sweep_complete.py: its probes of the machine in Complete/Probe, `run_vllm` and `main`
--   in Complete/Run, and the numbers that it draws and sends in Complete/Graph. It has its own log of
--   what it does; `np.mean` is an argument.
-- - Resume: run_sweep.py, on the probes of Complete: its startup loop in Resume/Startup,
--   `run_experiment` in Resume/Run, and `main` with the progress file in Resume/Plan.
-- - Timeline: run_full_sweep.py: `check_oom_in_log` in Timeline itself, the other small functions in
--   Timeline/Probe, `run_timeline_test` in Timeline/Test, `is_experiment_done` and `run_sweep` in
--   Timeline/Plan, and the averages of its summary in Timeline/Compare. Its state has what was done to
--   the machine, the lines of both logs, and the timeline files by their path.
-- - Watch: vram_monitor.py. Each `start` adds a thread, and a run is a list of steps of any of them.
-- - Analysis: analyze_vram_timeline.py, on the lines of the timeline files of Timeline.
-- - Single: highfreq_test.py, quick_test.py and extended_test.py, on the functions of Sweep.
-- - Direct: direct_vram_test.py. Its monitor ends by itself, so its thread is one call of the loop.
-- - Logged: test_vram_with_logs.py, with the text of the server's log in Logged/Extracted.
-- - Encoding: test_vram_timeline.py. The encoder of LMCache is not modelled, only the calls of it.
-- - Text: texts as character codes, and the patterns of `re` that the scripts use.
-- - Float: Python's floats as an interface of operations, with the laws that theorems take. Float/Fixed
--   is a concrete instance, in millionths, that satisfies them.
-- - Base: the shared names and lemmas. Tests: runs, and the theorems at concrete inputs.
--
-- An exception is `none` of an Option, an early return a constructor of a result type. Numbers are
-- natural numbers and integers without bound, as in Python.
--
-- Fuel: `wait_for_vllm` takes a round of fuel for every test of its loop. Each round sleeps two
-- seconds, so 91 rounds are enough for the timeout of 180 s, and 61 for the 120 s of the full sweep.
-- `monitor_vram` sleeps 5 ms in each round, so 4001 rounds are enough for its 20 s.
-- The loop over chunks of 4,096 tokens has 4,097 rounds of fuel; a chunk has at least one token.
-- The polling loops with a number of rounds are recursive on it.
--
-- Not modelled: what is printed, except where printing raises; the contents of the JSON files apart
-- from the values in them; failures of the operating system such as a full disk; the
-- scripts that draw plots or send mail and the remaining ones that measure once; the copy of the
-- LMCache library under notuse_backup, which is another project's, and the copies of the scripts
-- beside it. Rounding is not modelled: the
-- theorems on sums of regions take exact sums and differences as a hypothesis.
pub mod Base
pub mod Float
pub mod Text
pub mod Answer
pub mod Disk
pub mod Server
pub mod Host
pub mod Vram
pub mod Sweep
pub mod Complete
pub mod Resume
pub mod Timeline
pub mod Watch
pub mod Analysis
pub mod Single
pub mod Direct
pub mod Logged
pub mod Encoding
mod Tests
