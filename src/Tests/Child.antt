-- ===== src/Tests/Child.antt =====
-- Examples for runner/src/process_runner.ts: a child that writes five bytes, with two limits.
use evm_contract_auditor_hon.Prelude.{ℕ, ◌≡◌, refl, ◌⊎◌, List, [], ◌∷◌, some, false}
use evm_contract_auditor_hon.Prelude.Texts.{trim}
use evm_contract_auditor_hon.World.{ProcessOutput}
use evm_contract_auditor_hon.ProcessRunner.{
  Stream, stdout, stderr, Event, data_read, exited, nothing_captured, run, capture_chunk,
}
use evm_contract_auditor_hon.ProcessRunner.Output.{reads, IsWhole, IsLimited, run-keeps}

abbrev chunks : List (Stream × List ℕ)
chunks = (stdout, 65 ∷ 66 ∷ []) ∷ (stderr, 67 ∷ []) ∷ (stdout, 68 ∷ 69 ∷ []) ∷ []

-- Output after the exit is lost.
abbrev late_chunk : List Event
late_chunk = data_read stdout (70 ∷ []) ∷ []

run-keeps_example :
    (out : ProcessOutput) × (run
        (λ bytes. bytes)
        4
        (reads chunks (exited (some 0) ∷ late_chunk))
        nothing_captured
      ≡ some out)
    × (out.code ≡ some 0)
    × (out.timed_out ≡ false)
    × (IsWhole (λ bytes. bytes) 4 chunks out ⊎ IsLimited (λ bytes. bytes) 4 chunks out)
run-keeps_example = run-keeps (λ bytes. bytes) 4 chunks (some (some 0)) late_chunk

-- All five bytes fit, and the sixth comes too late.
run_late :
    run (λ bytes. bytes) 6 (reads chunks (exited (some 0) ∷ late_chunk)) nothing_captured
    ≡ some (record {
      code = some 0;
      timed_out = false;
      output_limit_exceeded = false;
      stdout = 65 ∷ 66 ∷ 68 ∷ 69 ∷ [];
      stderr = 67 ∷ [];
    })
unfolding run capture_chunk trim
run_late = refl
