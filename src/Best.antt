-- ===== src/Best.antt =====
-- `bin/arb/src/defi/mod.rs`, `Defi::find_best_path_exact_in` and `PathTradeResult`, and
-- `TradeResult` of `trade.rs`: the best of the paths, by what their simulated trades give.
-- The tasks, one for each path that is not empty, run in a `JoinSet`; what comes out of it, in the
-- order in which they end, is an argument: the index of the path with what its task returned.
pub mod Choice
use poison_dart.Base.{
  ℕ, Bool, Option, none, some, List, [], ◌∷◌, ltb, if◌then◌else◌, ite, str_dec, get_elem?, Result,
  ok, err, ensure, ok_or, ◌>>=◌, ◌>>◌,
}
use poison_dart.Base.Int.{ℤ, pos, ◌-ℤ◌}
use poison_dart.Dex.{DexOps, DexPath, sui_coin_type, first_in, last_out}

pub data TradeType : Type 0 where
  swap flashloan : TradeType

pub record TradeResult : Type 0 where
  pub amount_out : ℕ
  pub gas_cost : ℤ
  pub cache_misses : ℕ

abbrev pub default_trade : TradeResult
default_trade = record { amount_out = 0; gas_cost = pos 0; cache_misses = 0 }

pub record PathTradeResult {ℓ} (D : Type ℓ) : Type ℓ where
  pub path : DexPath D
  pub amount_in : ℕ
  pub amount_out : ℕ
  pub gas_cost : ℤ
  pub cache_misses : ℕ

-- A task that has ended: the index of its path, with none if the task itself failed to join.
abbrev pub Joined : Type 0
Joined = ℕ × Option (Result TradeResult)

-- `PartialOrd` of `TradeResult` compares the amounts alone.
abbrev pub better : TradeResult → TradeResult → Bool
better t best = ltb best.amount_out t.amount_out

-- `while let Some(Ok((idx, trade_res))) = joinset.join_next().await`.
unfoldable pub join_best : List Joined → ℕ × TradeResult → ℕ × TradeResult
join_best [] best = best
join_best ((idx, none) ∷ js) best = best
join_best ((idx, some (err _)) ∷ js) best = join_best js best
join_best ((idx, some (ok t)) ∷ js) best = join_best js (if better t best.1 then (idx, t) else best)

module _ {ℓ} {D : Type ℓ} where
  -- `PathTradeResult::new`.
  unfoldable pub new_path_trade : DexPath D → ℕ → TradeResult → PathTradeResult D
  new_path_trade path amount_in t = record {
    path = path;
    amount_in = amount_in;
    amount_out = t.amount_out;
    gas_cost = t.gas_cost;
    cache_misses = t.cache_misses;
  }

  unfoldable pub find_best_path_exact_in :
      (paths : List (DexPath D)) → (amount_in : ℕ) → List Joined → Result (PathTradeResult D)
  unfolding join_best new_path_trade
  find_best_path_exact_in paths amount_in joined = do
    let best = join_best joined (0, default_trade)
    ensure (ltb 0 best.1.amount_out) "zero amount_out"
    path ← ok_or (get_elem? paths best.0) "index out of bounds"
    ok (new_path_trade path amount_in best.1)

  -- `PathTradeResult::profit`; none where the path is empty, at which the code panics.
  unfoldable pub profit : DexOps D → PathTradeResult D → Option ℤ
  unfolding first_in last_out
  profit ops r = elim (first_in ops r.path.path) [
    | none ↦ none
    | some coin_in ↦
        ite (str_dec coin_in sui_coin_type)
          (elim (last_out ops r.path.path) [
            | none ↦ none
            | some coin_out ↦ some (
                ite (str_dec coin_out sui_coin_type)
                  (pos r.amount_out -ℤ pos r.amount_in -ℤ r.gas_cost)
                  (pos 0 -ℤ r.gas_cost -ℤ pos r.amount_in))
          ])
          (some (pos 0))
  ]
