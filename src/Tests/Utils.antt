-- ===== src/Tests/Utils.antt =====
-- Examples for runner/src/utils.ts.
use evm_contract_auditor_hon.Prelude.{
  ℕ, ◌+◌, ◌≤◌, ◌≡◌, refl, arith, Text, true, some, codes, leb, if◌then◌else◌,
}
use evm_contract_auditor_hon.Prelude.Int.{pos}
use evm_contract_auditor_hon.Utils.Hex.{hex_to_number, to_hex, hex_to_number-to_hex}
use evm_contract_auditor_hon.Utils.Retry.{Result, ok, err, RetryOptions, retry}
use evm_contract_auditor_hon.Utils.Retry.Attempts.{Tries, retry-Tries}
use evm_contract_auditor_hon.Utils.Transient.{Method, method_text, rpc_http_error}
use evm_contract_auditor_hon.World.{http_status}
use evm_contract_auditor_hon.Client.{request}
use evm_contract_auditor_hon.Client.Permanent.{request_of_http_status}
use evm_contract_auditor_hon.Tests.Data.{config, world}

hex_to_number-to_hex_example : hex_to_number (to_hex 255) ≡ some (pos 255)
hex_to_number-to_hex_example = hex_to_number-to_hex 255

-- The state is the time waited; the third attempt succeeds.
abbrev wait : ℕ → ℕ → ℕ
wait ms s = s + ms

abbrev third : ℕ → ℕ → Result ℕ × ℕ
third k s = if leb 3 k then (ok k, s) else (err (codes "again"), s)

abbrev three : RetryOptions
three = record { attempts = 3; base_delay_ms = 10; should_retry = λ e k. true }

retry-Tries_example : (n : ℕ) × Tries wait third three 1 n 0 (retry wait third three 0) × (n ≤ 3)
retry-Tries_example = retry-Tries wait third three 0 (omega arith)

-- The node answers every request with the status 429.
request_of_http_status_example :
    request {A = Text} config Method.code (λ id. http_status 429) world
    ≡ (err (rpc_http_error (method_text Method.code) 429), record world { id = world.id + 1 })
request_of_http_status_example =
    request_of_http_status config Method.code (λ id. http_status 429) world 429 (omega arith) refl
      (omega arith)
