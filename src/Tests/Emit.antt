-- ===== src/Tests/Emit.antt =====
-- An example for `emitEvent` of runner/src/runner.ts.
use evm_contract_auditor_hon.Prelude.{refl, false}
use evm_contract_auditor_hon.Prelude.Dict.{lookup}
use evm_contract_auditor_hon.Webhook.{post_webhook}
use evm_contract_auditor_hon.Emit.{emit_event}
use evm_contract_auditor_hon.Emit.Delivery.{Emitted, emit_event-Emitted}
use evm_contract_auditor_hon.Tests.Data.{config, env, options, event, world}

emit_event-Emitted_example :
    let post = post_webhook config env event false world in
    let out = emit_event config env options event world in
    Emitted config env event world post.0 post.1.ticks out.0 out.1
unfolding lookup
emit_event-Emitted_example = emit_event-Emitted config env options event world refl refl refl refl
