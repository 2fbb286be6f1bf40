-- ===== src/Tests/Reorg.antt =====
-- An example for `ensureReorgSafeCheckpoint` of runner/src/runner.ts: the node has another block 2
-- than the history, and the same block 1.
use evm_contract_auditor_hon.Prelude.{◌≡◌, refl, List, [], ◌∷◌, some, codes, text_eq}
use evm_contract_auditor_hon.Types.Checkpoint.{BlockHistoryEntry}
use evm_contract_auditor_hon.Utils.Retry.{ok, retry, retry_from}
use evm_contract_auditor_hon.World.{World, pure, ◌>>=◌}
use evm_contract_auditor_hon.Client.{get_block_by_number, or_not_found, request, attempt}
use evm_contract_auditor_hon.Runner.Reorg.{find_common}
use evm_contract_auditor_hon.Runner.Reorg.Search.{IsCommon, find_common-IsCommon}
use evm_contract_auditor_hon.Tests.Data.{config, env, world, entry_one}

abbrev entries : List BlockHistoryEntry
entries = record entry_one { number = 2 } ∷ record entry_one { hash = codes "0xb1" } ∷ []

abbrev after : World
after = (find_common config env 3 entries world).1

found : find_common config env 3 entries world ≡ (ok (some 1), after)
unfolding find_common get_block_by_number or_not_found request attempt retry retry_from pure ◌>>=◌
    text_eq
found = refl

find_common-IsCommon_example : IsCommon config env 3 entries 1
find_common-IsCommon_example = find_common-IsCommon config env 3 entries world after 1 found
