-- ===== src/Tests/Resumes.antt =====
-- The sweep that goes on from saved results.
use cachegen_plus.Base.{ℕ, ◌+◌, ◌≤◌, ◌≡◌, refl, true, false, List, [], ◌∷◌, some, All}
use cachegen_plus.Base.Int.{ℤ}
use cachegen_plus.Float.Fixed.{fixed}
use cachegen_plus.Text.{codes, number}
use cachegen_plus.Text.Pattern.{search_first}
use cachegen_plus.Answer.{run_raised, exited}
use cachegen_plus.Complete.Probe.Ready.{seconds}
use cachegen_plus.Resume.Startup.{timed_out, startup}
use cachegen_plus.Resume.Startup.Seconds.{startup-seconds}
use cachegen_plus.Resume.Run.{ResumeAnswers, curl_exited, split_words, listed_bytes}
use cachegen_plus.Resume.Plan.{SafeConfig, key_of, has_key, safe_configs, resume_main}
use cachegen_plus.Resume.Plan.Keys.{resume_main-keys, resume_main-again}

two_files :
    listed_bytes (codes "-rw 1 me me 300 x.pt" ∷ codes "total 9" ∷ codes "-rw 1 me me 40 y.pt" ∷ [])
    ≡ some 340
unfolding listed_bytes split_words search_first number
two_files = refl

startup-seconds_example :
    let out = startup {W = ℤ} (λ i. false) (λ i k. run_raised) [] in
    (seconds ℤ out.0 ≤ seconds ℤ [] + 2790)
    × (out.1 ≡ timed_out → seconds ℤ out.0 ≡ seconds ℤ [] + 2790)
startup-seconds_example = startup-seconds ℤ (λ i. false) (λ i k. run_raised) []

-- Every server starts at once.
answers : List ℕ → SafeConfig ℤ → ResumeAnswers
answers mode c = record {
  dead = λ i. false;
  replies = λ i k. exited 0 (codes "{\"object\":\"list\"}");
  smi_before = exited 0 (codes "8192");
  smi_after = exited 0 (codes "4096");
  request = curl_exited 0;
  listing = exited 0 (codes "-rw 1 me me 300 x.pt");
  vram_log = some (codes "encode_function: increase=0.25GB");
}

dying : List ℕ → SafeConfig ℤ → ResumeAnswers
unfolding answers
dying mode c = record (answers mode c) { dead = λ i. true }

resume_main-keys_example :
    let results = (resume_main answers [] []).1 in
    All (λ (c : SafeConfig ℤ). has_key (key_of (codes "cachegen") c) results ≡ true) safe_configs
    × All (λ (c : SafeConfig ℤ). has_key (key_of (codes "native") c) results ≡ true) safe_configs
resume_main-keys_example = resume_main-keys ℤ answers [] []

resume_main-again_example :
    let results = (resume_main dying [] []).1 in resume_main answers [] results ≡ ([], results)
resume_main-again_example = resume_main-again ℤ dying answers [] [] []
