-- ===== src/Vram/Gpu/Fields.antt =====
-- The line that nvidia-smi prints is read back field by field.
use cachegen_plus.Base.{ℕ, ◌≡◌, refl, ◌≢◌, List, [], ◌∷◌, map, some, All}
use cachegen_plus.Base.Int.{pos}
use cachegen_plus.Float.{Float, ◌⊘◌}
use cachegen_plus.Text.{strip, join, split-join}
use cachegen_plus.Answer.{exited}
use cachegen_plus.Vram.Gpu.{parse_fields, of_megabytes, nvidia_smi_memory}

module _ (W : Type 0) ⦃f : Float W⦄ where
  -- Each field, stripped, is the text of the number beside it, and holds no comma.
  abbrev pub Reads : List (List ℕ × W) → Type 0
  Reads [] = Unit
  Reads ((field, value) ∷ row) =
      All (λ c. c ≢ b',') field × (f.parse (strip field) ≡ some value) × Reads row

  parse_fields-Reads :
      (row : List (List ℕ × W))
      → Reads row
      → parse_fields (map (λ e. e.0) row) ≡ some (map (λ e. e.1) row)
  unfolding parse_fields
  parse_fields-Reads [] h = refl
  parse_fields-Reads ((field, value) ∷ row) (_, read, rest) = rw (read, parse_fields-Reads row rest)

  commas : (row : List (List ℕ × W)) → Reads row → All (All (λ c. c ≢ b',')) (map (λ e. e.0) row)
  commas [] h = tt
  commas ((field, value) ∷ row) (clean, _, rest) = (clean, commas row rest)

  -- If nvidia-smi succeeds with four fields joined by commas, each of which holds no comma and is,
  -- stripped, the text of a number, and with no white space around the line, the method returns the
  -- four numbers, in GB, in the order total, used, free, reserved.
  pub nvidia_smi_memory-join :
      (total used free reserved : List ℕ × W)
      → let row = total ∷ used ∷ free ∷ reserved ∷ [] in
        let out = join b',' (map (λ e. e.0) row) in
        Reads row
        → strip out ≡ out
        → let kilo = f.of_int (pos 1024) in
          nvidia_smi_memory (exited 0 out) ≡ record {
            total = total.1 ⊘ kilo;
            used = used.1 ⊘ kilo;
            free = free.1 ⊘ kilo;
            reserved = reserved.1 ⊘ kilo;
          }
  unfolding nvidia_smi_memory of_megabytes
  nvidia_smi_memory-join total used free reserved reads trimmed =
      let row : List (List ℕ × W) = total ∷ used ∷ free ∷ reserved ∷ [] in
      rw (
        trimmed,
        split-join b',' total.0 (used.0 ∷ free.0 ∷ reserved.0 ∷ []) (commas row reads),
        parse_fields-Reads row reads,
      )
