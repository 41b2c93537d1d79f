-- ===== src/Tests/Timelines.antt =====
-- The reading of the server's log.
use cachegen_plus.Base.{◌≡◌, refl, true}
use cachegen_plus.Text.{codes}
use cachegen_plus.Text.Substring.{starts_with, occurs_in}
use cachegen_plus.Timeline.{content, check_oom_in_log}
use cachegen_plus.Timeline.Stages.{check_oom_in_log-startup}

request_stage :
    check_oom_in_log (content (codes "torch.OutOfMemoryError")) ≡ (true, codes "request")
unfolding check_oom_in_log occurs_in starts_with
request_stage = refl

check_oom_in_log-startup_example :
    check_oom_in_log (content (codes "x CUDA out of memory during compression"))
    ≡ (true, codes "startup")
unfolding occurs_in starts_with
check_oom_in_log-startup_example =
    check_oom_in_log-startup (codes "x CUDA out of memory during compression") refl
