-- ===== src/ProcessRunner/Output.antt =====
-- What `run` of runner/src/process_runner.ts gives, from the events of a child.
use evm_contract_auditor_hon.Prelude.{
  ℕ, ◌+◌, ◌≤◌, ◌<◌, ◌≡◌, refl, ap, List, [], ◌∷◌, Bool, true, false, Option, none, some, Text,
  length, arith, inl, inr, ◌⊎◌,
}
use evm_contract_auditor_hon.Prelude.Texts.{trim}
use evm_contract_auditor_hon.World.{ProcessOutput}
use evm_contract_auditor_hon.ProcessRunner.{
  Stream, stdout, stderr, Event, data_read, exited, timed_out, Captured, nothing_captured,
  capture_chunk, run, output_of,
}
use evm_contract_auditor_hon.ProcessRunner.Captures.{
  capture_all, total, read_from, capture_all-cases,
}

-- The events of a child that writes these chunks.
abbrev pub reads : List (Stream × List ℕ) → List Event → List Event
reads [] events = events
reads ((stream, chunk) ∷ rest) events = data_read stream chunk ∷ reads rest events

-- The end of the child: it exits, or its time is over.
abbrev pub end_of : Option (Option ℕ) → Event
end_of none = timed_out
end_of (some code) = exited code

abbrev pub code_of : Option (Option ℕ) → Option ℕ
code_of none = none
code_of (some code) = code

abbrev pub is_late : Option (Option ℕ) → Bool
is_late none = true
is_late (some code) = false

run-reads :
    (utf8 : List ℕ → Text) (max : ℕ) (chunks : List (Stream × List ℕ)) (ending : Option (Option ℕ))
    (later : List Event) (c : Captured)
    → run utf8 max (reads chunks (end_of ending ∷ later)) c
      ≡ some (output_of utf8 (code_of ending) (is_late ending) (capture_all max chunks c))
unfolding run capture_all
run-reads utf8 max [] none later c = refl
run-reads utf8 max [] (some code) later c = refl
run-reads utf8 max ((stream, chunk) ∷ rest) ending later c =
    run-reads utf8 max rest ending later (capture_chunk max stream chunk c)

-- The output holds all that the child wrote on each stream.
abbrev pub IsWhole : (List ℕ → Text) → ℕ → List (Stream × List ℕ) → ProcessOutput → Type 0
IsWhole utf8 max chunks out =
    (out.output_limit_exceeded ≡ false)
    × (total chunks ≤ max)
    × (out.stdout ≡ trim (utf8 (read_from stdout chunks)))
    × (out.stderr ≡ trim (utf8 (read_from stderr chunks)))

-- The child wrote too much, and the output comes from no more bytes than the limit.
abbrev pub IsLimited : (List ℕ → Text) → ℕ → List (Stream × List ℕ) → ProcessOutput → Type 0
IsLimited utf8 max chunks out =
    (out.output_limit_exceeded ≡ true)
    × (max < total chunks)
    × ((kept : List ℕ) × (errors : List ℕ) × (length kept + length errors ≤ max)
        × (out.stdout ≡ trim (utf8 kept))
        × (out.stderr ≡ trim (utf8 errors)))

-- Once the child has exited or its time is over there is a result, which later events do not
-- change. If the bytes that came before fit the limit then it holds all of them, stream by stream;
-- otherwise it says that the limit was exceeded and is made of no more bytes than the limit.
pub run-keeps :
    (utf8 : List ℕ → Text) (max : ℕ) (chunks : List (Stream × List ℕ)) (ending : Option (Option ℕ))
    (later : List Event)
    → (out : ProcessOutput) × (run utf8 max (reads chunks (end_of ending ∷ later)) nothing_captured
        ≡ some out)
      × (out.code ≡ code_of ending)
      × (out.timed_out ≡ is_late ending)
      × (IsWhole utf8 max chunks out ⊎ IsLimited utf8 max chunks out)
run-keeps utf8 max chunks ending later = (
  _,
  run-reads utf8 max chunks ending later nothing_captured,
  refl,
  refl,
  elim (capture_all-cases max chunks nothing_captured refl refl (omega arith)) [
    | inl k ↦ inl (
      k.exceeded,
      omega (arith, k.within),
      ap (λ bytes. trim (utf8 bytes)) k.out,
      ap (λ bytes. trim (utf8 bytes)) k.errors,
    )
    | inr k ↦ inr (k.exceeded, omega (arith, k.beyond), (_, _, k.kept, refl, refl))
  ],
)
