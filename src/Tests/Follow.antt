-- ===== src/Tests/Follow.antt =====
-- Examples for the loop of `runRunner` of runner/src/runner.ts: a run with `--once` whose node is at
-- block 3, and a node whose number does not parse.
use evm_contract_auditor_hon.Prelude.{◌≡◌, refl, text_eq, find?, select, codes, none, some, false}
use evm_contract_auditor_hon.Prelude.Int.{pos, ◌+ℤ◌, ◌-ℤ◌}
use evm_contract_auditor_hon.Types.Config.{RunnerConfig}
use evm_contract_auditor_hon.Utils.Retry.{ok, retry, retry_from}
use evm_contract_auditor_hon.Utils.Hex.{hex_to_number}
use evm_contract_auditor_hon.World.{
  World, Env, result, pure, ◌>>=◌, get_checkpoint, assign_checkpoint, read_clock, modify, count,
  for_each, try_catch,
}
use evm_contract_auditor_hon.Client.{
  get_latest_block_number, get_block_by_number, or_not_found, request, attempt,
}
use evm_contract_auditor_hon.Emit.{save, write_checkpoint}
use evm_contract_auditor_hon.Runner.Detect.{
  detect_deployments, scan_result, full_transactions, fetch_receipts, get_internal_deployments,
}
use evm_contract_auditor_hon.Traces.{extract_create_deployments_from_debug_trace_array}
use evm_contract_auditor_hon.Runner.Reorg.{
  ensure_reorg_safe_checkpoint, compare_parent, previous_entry, rewind, find_common,
  sort_descending,
}
use evm_contract_auditor_hon.Runner.Range.{
  process_range, process_blocks, process_block, scan_block, finish_block,
}
use evm_contract_auditor_hon.Runner.Follow.{
  polling, finished, Loop, started, range_done, ends, polled, Reach, here, next, looping,
}
use evm_contract_auditor_hon.Runner.Follow.Confirmed.{IsFollowed, loop-IsFollowed}
use evm_contract_auditor_hon.Runner.Follow.Stuck.{IsStuck, unparsed_number-IsStuck}
use evm_contract_auditor_hon.Tests.Data.{config, env, node, options, runtime, world}

abbrev confirming : RunnerConfig
confirming = record config { confirmations = 1 }

abbrev at_three : Env
at_three = record env { node = record node { block_number = λ id. result (codes "0x3") } }

abbrev asked : World
asked = (get_latest_block_number confirming at_three world).1

asked_there : get_latest_block_number confirming at_three world ≡ (ok (some (pos 3)), asked)
unfolding get_latest_block_number ◌>>=◌ request hex_to_number
asked_there = refl

abbrev after : World
after = (process_range confirming at_three options runtime 2 2 asked).1

returned : process_range confirming at_three options runtime 2 2 asked ≡ (ok tt, after)
unfolding get_latest_block_number process_range process_blocks process_block scan_block finish_block
    ensure_reorg_safe_checkpoint compare_parent previous_entry rewind find_common sort_descending
    detect_deployments full_transactions fetch_receipts get_internal_deployments save
    write_checkpoint get_block_by_number or_not_found request attempt pure ◌>>=◌ get_checkpoint
    assign_checkpoint read_clock modify count for_each try_catch retry retry_from text_eq find?
    select scan_result extract_create_deployments_from_debug_trace_array
returned = refl

abbrev over : Loop
over = record { place = finished (some (pos 3)); stopping = false; world = after }

to_over :
    Reach confirming at_three options runtime
      (looping confirming at_three options runtime world)
      over
unfolding get_latest_block_number ◌>>=◌ request ◌-ℤ◌ ◌+ℤ◌
to_over =
    next (next (next here (started refl asked_there)) (range_done refl refl refl refl returned))
      (ends refl refl)

loop-IsFollowed_example : IsFollowed confirming world (finished (some (pos 3))) after
loop-IsFollowed_example = loop-IsFollowed confirming at_three options runtime world to_over

-- The node answers with a number without digits, also after the poll.
abbrev no_number : Env
no_number = record env { node = record node { block_number = λ id. result (codes "0x") } }

abbrev waiting : Loop
waiting = record { place = polling none; stopping = false; world = world }

abbrev polled_once : World
polled_once = (get_latest_block_number config no_number world).1

polled_there : get_latest_block_number config no_number world ≡ (ok none, polled_once)
unfolding get_latest_block_number ◌>>=◌ request hex_to_number
polled_there = refl

unparsed_number-IsStuck_example : IsStuck (polling none)
unparsed_number-IsStuck_example =
    unparsed_number-IsStuck config no_number options runtime {s = waiting}
      {t = record waiting { world = polled_once }} refl (next here (polled refl polled_there))
