-- ===== src/Runtime/Hybrid.antt =====
-- app/runtime/mamba_cache.py: the keys and values of the attention layers, and the convolution and
-- state-space tensors of the recurrent ones, which are a parameter `T`.
use matricxon.Base.{ℕ, Option, none, some, List}
use matricxon.Runtime.KvCache.{KvCache, truncate, fork}

-- `HybridSnapshot`
pub record HybridSnapshot (T : Type 0) : Type 0 where
  pub position : ℕ
  pub conv_state : List T
  pub ssm_state : List T

-- `NemotronHHybridCache`
pub record HybridCache (A T : Type 0) : Type 0 where
  pub kv_cache : KvCache A
  pub conv_state : List T
  pub ssm_state : List T

module _ {A T : Type 0} where
  -- `snapshot`
  unfoldable pub snapshot : HybridCache A T → HybridSnapshot T
  snapshot c = record {
    position = c.kv_cache.committed;
    conv_state = c.conv_state;
    ssm_state = c.ssm_state;
  }

  -- `restore`
  unfoldable pub restore : HybridSnapshot T → HybridCache A T → Option (HybridCache A T)
  restore s c = elim (truncate s.position c.kv_cache) [
    | none ↦ none
    | some kv ↦ some (record { kv_cache = kv; conv_state = s.conv_state; ssm_state = s.ssm_state })
  ]

  -- `fork_from`
  unfoldable pub fork_from :
      A → HybridSnapshot T → Option ℕ → HybridCache A T → Option (HybridCache A T)
  fork_from empty s wanted c = elim (fork empty s.position wanted c.kv_cache) [
    | none ↦ none
    | some kv ↦ some (record { kv_cache = kv; conv_state = s.conv_state; ssm_state = s.ssm_state })
  ]
