-- ===== src/Worker/Handled.antt =====
-- What a worker submits for an item.
use poison_dart.Base.{
  ℕ, ◌≡◌, refl, inl, inr, ◌⊎◌, true, false, some, List, [], ◌∷◌, map, String, All, Result, ok, err,
  ok_err_elim, ok_injective, Result-cases, Bool-cases, Option-cases, subst, ◌∙◌, ap,
}
use poison_dart.Base.Int.{is_positive}
use poison_dart.Source.{
  Source, TransactionDigest, shio, public, shio_deadline_missed, is_shio, bid_amount,
}
use poison_dart.ArbCache.{ArbItem}
use poison_dart.Arb.{ArbResult}
use poison_dart.Trade.Trader.{BalanceChange, SimulateResult}
use poison_dart.Worker.{
  Action, notify_via_telegram, execute_public_tx, shio_submit_bid, change_of_owner, dry_run_tx_data,
  arbitrage_one_coin, action_for, handle_arb_item,
}

abbrev pub IsNotice : {Tx Message : Type 0} → Action Tx Message → Type 0
IsNotice (notify_via_telegram m) = Unit
IsNotice (execute_public_tx tx) = ⊥
IsNotice (shio_submit_bid tx bid digest) = ⊥

-- The transaction that an action sends.
abbrev pub Sends :
    {Tx Message : Type 0} → Source → TransactionDigest → Tx → Action Tx Message → Type 0
Sends source digest tx (notify_via_telegram m) = ⊥
Sends source digest tx (execute_public_tx tx') = (tx' ≡ tx) × (is_shio source ≡ false)
Sends source digest tx (shio_submit_bid tx' bid digest') =
    (tx' ≡ tx) × (is_shio source ≡ true) × (bid ≡ bid_amount source) × (digest' ≡ digest)

module _ {Tx Ctx : Type 0} (sender : ℕ) (fix_object_refs : Tx → Result Tx)
    (simulate : Tx → Ctx → Result SimulateResult) where
  -- A transaction with the latest gas coins, whose simulation succeeds and pays the sender.
  pub record IsChecked (tx_data : Tx) (sim_ctx : Ctx) (checked : Tx) : Type 0 where
    pub fixed : fix_object_refs tx_data ≡ ok checked
    pub resp : SimulateResult
    pub simulated : simulate checked sim_ctx ≡ ok resp
    pub success : resp.is_success ≡ true
    pub change : BalanceChange
    pub found : change_of_owner sender resp.balance_changes ≡ some change
    pub gains : is_positive change.amount ≡ true

  dry_run_tx_data-IsChecked :
      (tx_data : Tx) (sim_ctx : Ctx) (checked : Tx)
      → dry_run_tx_data sender fix_object_refs simulate tx_data sim_ctx ≡ ok checked
      → IsChecked tx_data sim_ctx checked
  unfolding dry_run_tx_data
  dry_run_tx_data-IsChecked tx_data sim_ctx checked e =
      elim (Result-cases (fix_object_refs tx_data)) [
        | inr (m, q) ↦ ok_err_elim {m = m} e (rw (q, dry_run_tx_data))
        | inl (tx, q) ↦ elim (Result-cases (simulate tx sim_ctx)) [
          | inr (m, q') ↦ ok_err_elim {m = m} e (rw (q, dry_run_tx_data, q'))
          | inl (resp, q') ↦ elim (Bool-cases resp.is_success) [
            | inr s ↦ ok_err_elim {m = "Dry run result"} e (rw (q, dry_run_tx_data, q', s))
            | inl s ↦ elim (Option-cases (change_of_owner sender resp.balance_changes)) [
              | inl f ↦
                  ok_err_elim {m = "No balance change for attacker"} e
                    (rw (q, dry_run_tx_data, q', s, f))
              | inr (bc, f) ↦ elim (Bool-cases (is_positive bc.amount)) [
                | inr g ↦
                    ok_err_elim {m = "Attacker's balance not increased"} e
                      (rw (q, dry_run_tx_data, q', s, f, g))
                | inl g ↦
                    let same = ok_injective (rw (q, dry_run_tx_data, q', s, f, g) at e) in
                    record {
                      fixed = q ∙ ap (λ t. ok t) same;
                      resp = resp;
                      simulated = subst (λ t. simulate t sim_ctx ≡ ok resp) same q';
                      success = s;
                      change = bc;
                      found = f;
                      gains = g;
                    }
              ]
            ]
          ]
        ]
      ]

  module _ {D Message : Type 0} (find_opportunity : ArbItem Ctx → Result (ArbResult D Tx))
      (new_tg_messages : TransactionDigest → Tx → ArbResult D Tx → List Message)
      (item : ArbItem Ctx) where
    -- The actions for an item: none, if there is no opportunity or its dry run fails; else the
    -- transaction first, and then only messages.
    abbrev pub AreActions : List (Action Tx Message) → Type 0
    AreActions [] =
        ((m : String) × (find_opportunity item ≡ err m))
        ⊎ ((r : ArbResult D Tx) × (m : String) × (find_opportunity item ≡ ok r)
            × (dry_run_tx_data sender fix_object_refs simulate r.tx_data item.sim_ctx ≡ err m))
    AreActions (a ∷ actions) =
        ((r : ArbResult D Tx) × (checked : Tx) × (find_opportunity item ≡ ok r)
          × IsChecked r.tx_data item.sim_ctx checked
          × Sends r.source item.tx_digest checked a)
        × All IsNotice actions

    notices-IsNotice :
        (messages : List Message)
        → All IsNotice (map {B = Action Tx Message} (λ m. notify_via_telegram m) messages)
    notices-IsNotice [] = tt
    notices-IsNotice (m ∷ ms) = (tt, notices-IsNotice ms)

    action_for-Sends :
        (tx : Tx) (source : Source)
        → Sends source item.tx_digest tx (
            action_for sender fix_object_refs simulate find_opportunity new_tg_messages item tx
              source)
    unfolding action_for is_shio bid_amount
    action_for-Sends tx public = (refl, refl)
    action_for-Sends tx (shio_deadline_missed m) = (refl, refl)
    action_for-Sends tx (shio a) = (refl, refl, refl, refl)

    -- A worker submits a transaction for an item only if there is an opportunity and the transaction,
    -- with the latest gas coins, succeeds in a dry run that pays the sender: as a bid with the amount
    -- of its source, on the digest of the item, if the source is still an auction, and else as a
    -- transaction of its own. Only messages follow it, and without one nothing is submitted.
    pub handle_arb_item-AreActions :
        AreActions
          (handle_arb_item sender fix_object_refs simulate find_opportunity new_tg_messages item)
    unfolding handle_arb_item arbitrage_one_coin
    handle_arb_item-AreActions = elim (Result-cases (find_opportunity item)) [
      | inr (m, e) ↦ rw (e, handle_arb_item, arbitrage_one_coin) (inl (m, e))
      | inl (r, e) ↦
          elim (Result-cases
            (dry_run_tx_data sender fix_object_refs simulate r.tx_data item.sim_ctx)) [
              | inr (m, d) ↦ rw (e, handle_arb_item, arbitrage_one_coin, d) (inr (r, m, e, d))
              | inl (tx, d) ↦
                  rw (e, handle_arb_item, arbitrage_one_coin, d)
                    (
                      (
                        r,
                        tx,
                        e,
                        dry_run_tx_data-IsChecked r.tx_data item.sim_ctx tx d,
                        action_for-Sends tx r.source,
                      ),
                      notices-IsNotice (new_tg_messages item.tx_digest tx r),
                    )
            ]
    ]
