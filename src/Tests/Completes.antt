-- ===== src/Tests/Completes.antt =====
-- The complete sweep.
use cachegen_plus.Base.{ℕ, ◌≡◌, refl, ◌↔◌, true, List, [], map, some, All, ◌==◌, if◌then◌else◌}
use cachegen_plus.Base.Int.{ℤ}
use cachegen_plus.Float.Fixed.{fixed, parse_fixed}
use cachegen_plus.Text.{codes, strip, split}
use cachegen_plus.Text.Pattern.{search_first}
use cachegen_plus.Answer.{RunResult, run_raised, exited}
use cachegen_plus.Complete.Probe.{lists_models, ready_from, check_vllm_ready, get_vram_usage}
use cachegen_plus.Complete.Run.{
  RunAnswers, RunRecord, run_vllm, run_record, run_configs, with_modes, configs, complete_main,
}
use cachegen_plus.Complete.Run.Ends.{Measured, complete_main-finishes}
use cachegen_plus.Complete.Graph.{graph_bars, sorted_set}
use cachegen_plus.Complete.Graph.Drawn.{flat, graph_bars-main}

-- The server answers at the third poll.
models : ℕ → RunResult
models k = if k == 2 then exited 0 (codes "{\"object\":\"list\"}") else run_raised

ready_at_the_third : (check_vllm_ready {W = ℤ} models 60 []).1 ≡ true
unfolding models check_vllm_ready ready_from lists_models search_first
ready_at_the_third = refl

answering : List ℕ → ℕ → RunAnswers
unfolding models
answering mode tokens = record {
  models = models;
  smi_before = exited 0 (codes "8192");
  smi_after = exited 0 (codes "10240");
  disk = exited 0 (codes "12 cache");
}

complete_main-finishes_example :
    ((rs : List (RunRecord ℤ)) × ((complete_main answering []).1 ≡ some rs))
    ↔ All (Measured ℤ answering) (with_modes configs)
complete_main-finishes_example = complete_main-finishes ℤ answering []

all_results : (rs : List (RunRecord ℤ)) × ((complete_main answering []).1 ≡ some rs)
unfolding answering models complete_main run_configs run_vllm run_record check_vllm_ready ready_from
    lists_models search_first get_vram_usage strip split parse_fixed
all_results = (_, refl)

graph_bars-main_example :
    graph_bars all_results.0
    ≡ map (λ n. flat ℤ refl) (sorted_set (map (λ r. r.tokens) all_results.0))
graph_bars-main_example = graph_bars-main ℤ refl answering [] all_results.0 all_results.1
