-- ===== src/Runner/Reorg/Search.antt =====
-- The block that `ensureReorgSafeCheckpoint` of runner/src/runner.ts goes back to.
use evm_contract_auditor_hon.Prelude.{
  ℕ, ◌+◌, ◌≤◌, ◌≡◌, refl, ap, arith, List, [], ◌∷◌, ◌++◌, Bool, false, Option, none, some, text_eq,
  text_eq_iff, Bool-cases, inl, inr, if◌then◌else◌,
}
use mathlib.Core.Path.{subst}
use evm_contract_auditor_hon.Types.Config.{RunnerConfig}
use evm_contract_auditor_hon.Types.Checkpoint.{BlockHistoryEntry}
use evm_contract_auditor_hon.Types.Rpc.{RpcBlock}
use evm_contract_auditor_hon.Utils.Retry.{Result, ok, ok-injective}
use evm_contract_auditor_hon.World.{World, M, pure, ◌>>=◌, Env}
use evm_contract_auditor_hon.World.Keeps.{bind-ok}
use evm_contract_auditor_hon.Client.{get_block_by_number}
use evm_contract_auditor_hon.Runner.Reorg.{find_common, too_deep}

abbrev number_or_zero : Option ℕ → ℕ
number_or_zero none = 0
number_or_zero (some n) = n

module _ (config : RunnerConfig) (env : Env) where
  -- An entry of the list, not too deep, whose hash the node answered at some time for its number.
  pub record IsCommon (block_number : ℕ) (entries : List BlockHistoryEntry) (n : ℕ) : Type 0 where
    pub entry : BlockHistoryEntry
    pub newer : List BlockHistoryEntry
    pub older : List BlockHistoryEntry
    pub there : entries ≡ newer ++ entry ∷ older
    pub number : entry.number ≡ n
    pub near : block_number ≤ entry.number + config.max_reorg_depth
    pub block : RpcBlock
    pub asked : World
    pub answered : World
    pub answer : get_block_by_number config env entry.number false asked ≡ (ok block, answered)
    pub same_hash : block.hash ≡ entry.hash

  further :
      (block_number n : ℕ) (e : BlockHistoryEntry) (es : List BlockHistoryEntry)
      → IsCommon block_number es n
      → IsCommon block_number (e ∷ es) n
  further block_number n e es c = record {
    entry = c.entry;
    newer = e ∷ c.newer;
    older = c.older;
    there = ap (λ l. e ∷ l) c.there;
    number = c.number;
    near = c.near;
    block = c.block;
    asked = c.asked;
    answered = c.answered;
    answer = c.answer;
    same_hash = c.same_hash;
  }

  -- The check of one entry, and the round that it belongs to.
  abbrev check : ℕ → BlockHistoryEntry → List BlockHistoryEntry → M (Option ℕ)
  check block_number x xs = get_block_by_number config env x.number false >>= λ chain_block.
      if text_eq chain_block.hash x.hash
      then pure (some x.number)
      else find_common config env block_number xs

  abbrev round : Bool → M (Option ℕ) → M (Option ℕ)
  round deep m = if deep then pure none else m

  -- A block that the search returns is one of the history, at most the reorganisation depth below
  -- the block it starts from, and the node answered with the hash that the history has for it.
  pub find_common-IsCommon :
      (block_number : ℕ) (entries : List BlockHistoryEntry) (w w' : World) (n : ℕ)
      → find_common config env block_number entries w ≡ (ok (some n), w')
      → IsCommon block_number entries n
  unfolding find_common pure
  find_common-IsCommon block_number [] w w' n e = cc
  find_common-IsCommon block_number (x ∷ xs) w w' n e =
      elim (Bool-cases (too_deep config block_number x)) [
        | inl deep ↦
            cc (subst (λ d. round d (check block_number x xs) w ≡ (ok (some n), w')) deep e)
        | inr near ↦
            let (b, w₁, asked, rest) =
              bind-ok (get_block_by_number config env x.number false)
                (λ chain_block.
                  if text_eq chain_block.hash x.hash
                  then pure (some x.number)
                  else find_common config env block_number xs)
                w w' (some n)
                (subst (λ d. round d (check block_number x xs) w ≡ (ok (some n), w')) near e) in
            elim (Bool-cases (text_eq b.hash x.hash)) [
              | inl same ↦ record {
                entry = x;
                newer = [];
                older = xs;
                there = refl;
                number = ap number_or_zero (
                    ok-injective (
                      ap (λ (p : Result (Option ℕ) × World). p.0)
                        (subst
                          (λ b.
                            (if b
                                then pure (some x.number)
                                else find_common config env block_number xs)
                              w₁
                            ≡ (ok (some n), w'))
                          same rest)));
                near = ground arith;
                block = b;
                asked = w;
                answered = w₁;
                answer = asked;
                same_hash = (text_eq_iff b.hash x.hash).0 same;
              }
              | inr other ↦ further block_number n x xs (
                  find_common-IsCommon block_number xs w₁ w' n (
                    subst
                      (λ b.
                        (if b then pure (some x.number) else find_common config env block_number xs)
                          w₁
                        ≡ (ok (some n), w'))
                      other rest))
            ]
      ]
