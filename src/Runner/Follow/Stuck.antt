-- ===== src/Runner/Follow/Stuck.antt =====
-- Where the loop of `runRunner` of runner/src/runner.ts waits for ever.
use mathlib.Core.Path.{subst}
use evm_contract_auditor_hon.Prelude.{◌≡◌, sym, Option, none, some}
use evm_contract_auditor_hon.Prelude.Int.{ℤ}
use evm_contract_auditor_hon.Types.Config.{RunnerConfig, CliOptions}
use evm_contract_auditor_hon.Types.Audit.{RunnerRuntime}
use evm_contract_auditor_hon.World.{Env}
use evm_contract_auditor_hon.Runner.Follow.{
  Place, polling, failed, Loop, poll_place, Step, signalled, started, start_failed, stopped,
  nothing_due, range_done, range_failed, ends, waits, announced, unheard, polled, poll_failed,
  Reach, here, next,
}

-- Waiting after a number that did not parse, or stopped by an error.
abbrev pub IsStuck : Place → Type 0
IsStuck (polling none) = Unit
IsStuck (failed error) = Unit
IsStuck _ = ⊥

module _ (config : RunnerConfig) (env : Env) (options : CliOptions) (runtime : RunnerRuntime) where
  Step-IsStuck :
      (s t : Loop) → IsStuck s.place → Step config env options runtime s t → IsStuck t.place
  Step-IsStuck s t h signalled = h
  Step-IsStuck s t h (started p e) = absurd (subst IsStuck p h)
  Step-IsStuck s t h (start_failed p e) = tt
  Step-IsStuck s t h (stopped p e) = absurd (subst IsStuck p h)
  Step-IsStuck s t h (nothing_due p e d) = absurd (subst IsStuck p h)
  Step-IsStuck s t h (range_done p e d f r) = absurd (subst IsStuck p h)
  Step-IsStuck s t h (range_failed p e d f r) = tt
  Step-IsStuck s t h (ends p e) = absurd (subst IsStuck p h)
  Step-IsStuck s t h (waits p e) = absurd (subst IsStuck p h)
  Step-IsStuck s t h (announced events p e) = absurd (subst IsStuck p h)
  Step-IsStuck s t h (unheard events p e) = absurd (subst IsStuck p h)
  Step-IsStuck s t h (polled {previous = previous} {latest = latest} p e) =
      poll-IsStuck previous latest (subst IsStuck p h)
    where
      poll-IsStuck :
          (previous latest : Option ℤ)
          → IsStuck (polling previous)
          → IsStuck (poll_place config env options runtime previous latest)
      poll-IsStuck none none k = tt
      poll-IsStuck none (some l) k = tt
      poll-IsStuck (some n) latest k = absurd k
  Step-IsStuck s t h (poll_failed p e) = tt

  -- If the loop polls after a number that did not parse, then it does so for ever, whatever the
  -- node answers and also after a signal, unless a request throws.
  pub unparsed_number-IsStuck :
      {s t : Loop} → s.place ≡ polling none → Reach config env options runtime s t → IsStuck t.place
  unparsed_number-IsStuck p here = subst IsStuck (sym p) tt
  unparsed_number-IsStuck p (next r step) = Step-IsStuck _ _ (unparsed_number-IsStuck p r) step
