-- ===== src/Tests/Range.antt =====
-- An example for `processRange` of runner/src/runner.ts: block 2 of the node has another parent than
-- block 1 of the history, so the round rewinds the checkpoint before it goes on.
use evm_contract_auditor_hon.Prelude.{◌≡◌, refl, arith, text_eq, find?, select}
use evm_contract_auditor_hon.Utils.Retry.{ok, retry, retry_from}
use evm_contract_auditor_hon.World.{
  World, pure, ◌>>=◌, get_checkpoint, assign_checkpoint, read_clock, modify, count, for_each,
  try_catch,
}
use evm_contract_auditor_hon.Client.{get_block_by_number, or_not_found, request, attempt}
use evm_contract_auditor_hon.Emit.{save, write_checkpoint}
use evm_contract_auditor_hon.Runner.Detect.{
  detect_deployments, scan_result, full_transactions, fetch_receipts, get_internal_deployments,
}
use evm_contract_auditor_hon.Traces.{extract_create_deployments_from_debug_trace_array}
use evm_contract_auditor_hon.Runner.Reorg.{
  ensure_reorg_safe_checkpoint, compare_parent, previous_entry, rewind, find_common,
  sort_descending,
}
use evm_contract_auditor_hon.Runner.Range.{
  process_range, process_blocks, process_block, scan_block, finish_block,
}
use evm_contract_auditor_hon.Runner.Range.Progress.{ReachedBlock, process_range-ReachedBlock}
use evm_contract_auditor_hon.Tests.Data.{config, env, options, runtime, world}

abbrev after : World
after = (process_range config env options runtime 2 2 world).1

returned : process_range config env options runtime 2 2 world ≡ (ok tt, after)
unfolding process_range process_blocks process_block scan_block finish_block
    ensure_reorg_safe_checkpoint compare_parent previous_entry rewind find_common sort_descending
    detect_deployments full_transactions fetch_receipts get_internal_deployments save
    write_checkpoint get_block_by_number or_not_found request attempt pure ◌>>=◌ get_checkpoint
    assign_checkpoint read_clock modify count for_each try_catch retry retry_from text_eq find?
    select scan_result extract_create_deployments_from_debug_trace_array
returned = refl

process_range-ReachedBlock_example : ReachedBlock 2 after
process_range-ReachedBlock_example =
    process_range-ReachedBlock config env options runtime 2 2 world after (omega arith) returned
