-- ===== src/Simulator.antt =====
-- `crates/simulator/src/lib.rs`: the epoch of the chain and the context of a simulation.
-- Objects are a parameter.
pub mod Owner
pub mod OverrideCache
use poison_dart.Base.{ℕ, Bool, Option, none, some, List, ltb}
use poison_dart.Base.Words.{add64}

pub record SimEpoch : Type 0 where
  pub epoch_id : ℕ
  pub epoch_start_timestamp : ℕ
  pub epoch_duration_ms : ℕ
  pub gas_price : ℕ

pub record SimulateCtx (O : Type 0) : Type 0 where
  pub epoch : SimEpoch
  pub override_objects : List O
  pub borrowed_coin : Option (O × ℕ)

-- `now` is what the code reads of the system's clock, in milliseconds.
unfoldable pub is_stale : (now : ℕ) → SimEpoch → Bool
is_stale now epoch = ltb now (add64 epoch.epoch_start_timestamp epoch.epoch_duration_ms)

module _ {O : Type 0} where
  -- `SimulateCtx::new`.
  unfoldable pub new_ctx : SimEpoch → List O → SimulateCtx O
  new_ctx epoch override_objects = record {
    epoch = epoch;
    override_objects = override_objects;
    borrowed_coin = none;
  }

  unfoldable pub with_borrowed_coin : O × ℕ → SimulateCtx O → SimulateCtx O
  with_borrowed_coin borrowed_coin ctx = record ctx { borrowed_coin = some borrowed_coin }

  unfoldable pub with_gas_price : ℕ → SimulateCtx O → SimulateCtx O
  with_gas_price gas_price ctx = record ctx {
    epoch = record {
      epoch_id = ctx.epoch.epoch_id;
      epoch_start_timestamp = ctx.epoch.epoch_start_timestamp;
      epoch_duration_ms = ctx.epoch.epoch_duration_ms;
      gas_price = gas_price;
    };
  }
