-- ===== src/Worker.antt =====
-- `bin/arb/src/strategy/worker.rs`: an item of the channel, from the opportunity to the actions that
-- are submitted. The latest references of the gas coins, the simulator and the texts of the messages
-- are arguments.
pub mod Handled
use poison_dart.Base.{
  ℕ, Bool, true, false, Option, none, some, List, [], ◌∷◌, map, ◌==◌, if◌then◌else◌, String, Result,
  ok, err, ensure, ok_or, ◌>>=◌, ◌>>◌,
}
use poison_dart.Base.Int.{is_positive}
use poison_dart.Source.{Source, TransactionDigest, public, shio, shio_deadline_missed}
use poison_dart.ArbCache.{ArbItem}
use poison_dart.Arb.{ArbResult}
use poison_dart.Simulator.Owner.{is_owned_by}
use poison_dart.Trade.Trader.{BalanceChange, SimulateResult}

-- `Action` of `bin/arb/src/types.rs`.
pub data Action (Tx Message : Type 0) : Type 0 where
  notify_via_telegram : Message → Action Tx Message
  execute_public_tx : Tx → Action Tx Message
  shio_submit_bid : Tx → (bid_amount : ℕ) → TransactionDigest → Action Tx Message

-- `into_iter().find(|bc| bc.owner == Owner::AddressOwner(self.sender))`.
unfoldable pub change_of_owner : (sender : ℕ) → List BalanceChange → Option BalanceChange
unfolding is_owned_by
change_of_owner sender [] = none
change_of_owner sender (bc ∷ bcs) =
    if is_owned_by sender bc.owner then some bc else change_of_owner sender bcs

module _ {Tx Ctx : Type 0} (sender : ℕ) (fix_object_refs : Tx → Result Tx)
    (simulate : Tx → Ctx → Result SimulateResult) where
  unfoldable pub dry_run_tx_data : Tx → Ctx → Result Tx
  unfolding change_of_owner
  dry_run_tx_data tx_data sim_ctx = do
    tx_data ← fix_object_refs tx_data
    resp ← simulate tx_data sim_ctx
    ensure resp.is_success "Dry run result"
    bc ← ok_or (change_of_owner sender resp.balance_changes) "No balance change for attacker"
    ensure (is_positive bc.amount) "Attacker's balance not increased"
    ok tx_data

  module _ {D Message : Type 0} (find_opportunity : ArbItem Ctx → Result (ArbResult D Tx))
      (new_tg_messages : TransactionDigest → Tx → ArbResult D Tx → List Message) where
    -- `arbitrage_one_coin`: an error is only logged.
    unfoldable pub arbitrage_one_coin : ArbItem Ctx → Option (ArbResult D Tx)
    arbitrage_one_coin item = elim (find_opportunity item) [ ok r ↦ some r | err _ ↦ none ]

    unfoldable pub action_for : ArbItem Ctx → Tx → Source → Action Tx Message
    action_for item tx_data (shio a) = shio_submit_bid tx_data a.bid_amount item.tx_digest
    action_for item tx_data _ = execute_public_tx tx_data

    -- What is submitted, in order. The simulator is notified exactly when something is.
    unfoldable pub handle_arb_item : ArbItem Ctx → List (Action Tx Message)
    unfolding arbitrage_one_coin dry_run_tx_data action_for
    handle_arb_item item = elim (arbitrage_one_coin item) [
      | none ↦ []
      | some r ↦ elim (dry_run_tx_data r.tx_data item.sim_ctx) [
        | err _ ↦ []
        | ok tx_data ↦
            action_for item tx_data r.source
            ∷ map (λ m. notify_via_telegram m) (new_tg_messages item.tx_digest tx_data r)
      ]
    ]
