-- ===== src/Tests/Loggeds.antt =====
-- The test that reads the memory from the log of the server.
use cachegen_plus.Base.{◌≡◌, inl, inr, refl, [], ◌∷◌, map, All}
use cachegen_plus.Base.Int.{ℤ, pos, ◌+ℤ◌, ◌-ℤ◌, ◌*ℤ◌, ◌/ℤ◌}
use cachegen_plus.Float.Fixed.{fixed, parse_fixed}
use cachegen_plus.Text.{codes, number, strip, split}
use cachegen_plus.Text.Substring.{starts_with, occurs_in}
use cachegen_plus.Answer.{exited}
use cachegen_plus.Timeline.Probe.{wait_for_curl, poll_from, cut_at}
use cachegen_plus.Logged.{
  LoggedAnswers, averages, marked, extract_vram_logs, without_gb, logged_ready, logged_test,
  increase_of, parse_parts, parse_vram, sum_list, compare_logs, logged_main,
}
use cachegen_plus.Logged.Parsed.{VramReport, report_text, lacks→All, increases}
use cachegen_plus.Logged.Extracted.{
  line_text, Entries, entry_text, reports, IsEntry, parse_vram-extract_vram_logs,
}
use cachegen_plus.Tests.Data.{clock}

abbrev report : VramReport
report = record {
  name = codes "encode_function";
  before = codes "0.1234";
  after = codes "0.5678";
  increase = codes "0.4444";
}

abbrev entries : Entries
entries = inl (record { prefix = codes "INFO: "; report = report }) ∷ inr (codes "INFO: ready") ∷ []

entries-IsEntry : All IsEntry entries
unfolding occurs_in starts_with
entries-IsEntry = (
  (
    lacks→All b'[' (codes "INFO: ") refl,
    lacks→All b'[' (codes "encode_function") refl,
    refl,
    (
      lacks→All b',' (codes "encode_function") refl,
      refl,
      (refl, (refl, (refl, (refl, (refl, (refl, tt)))))),
      (refl, (refl, (refl, (refl, (refl, (refl, tt)))))),
      (refl, (refl, (refl, (refl, (refl, (refl, tt)))))),
    ),
  ),
  (refl, tt),
)

parse_vram-extract_vram_logs_example :
    parse_vram (extract_vram_logs (map entry_text entries)) ≡ increases ℤ (reports entries)
parse_vram-extract_vram_logs_example = parse_vram-extract_vram_logs ℤ entries entries-IsEntry

read : increases ℤ (reports entries) ≡ pos 444400 ∷ []
unfolding strip parse_fixed number ◌/ℤ◌ ◌*ℤ◌
read = refl

answers : LoggedAnswers
answers = record {
  clock = clock;
  polls = λ k. exited 0 [];
  posts = λ k. exited 0 [];
  log_lines = map entry_text entries;
}

compared : (logged_main {W = ℤ} answers answers []).1 ≡ averages (pos 444400) (pos 444400) (pos 0)
unfolding answers logged_main logged_test logged_ready wait_for_curl poll_from extract_vram_logs
    marked cut_at without_gb increase_of parse_parts parse_vram sum_list compare_logs occurs_in
    starts_with strip parse_fixed number ◌/ℤ◌ ◌*ℤ◌ ◌+ℤ◌ ◌-ℤ◌ line_text report_text split
compared = refl
