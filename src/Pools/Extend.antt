-- ===== src/Pools/Extend.antt =====
-- `bin/arb/src/defi/mod.rs`, the methods of the trait `Dex` that extend a transaction, by the protocol
-- of the pool.
use poison_dart.Base.{ℕ, Bool, true, false, Option, Result, err}
use poison_dart.Move.{ObjectArg}
use poison_dart.Pools.KriyaAmm.Swap as kriya_amm_swap
use poison_dart.Pools.Turbos.Swap as turbos_swap
use poison_dart.Pools.BlueMove.Swap as blue_move_swap
use poison_dart.Pools.DeepbookV2.Swap as deepbook_v2_swap
use poison_dart.Pools.KriyaClmm.Swap as kriya_clmm_swap
use poison_dart.Pools.Cetus.Swap as cetus_swap
use poison_dart.Pools.FlowxClmm.Swap as flowx_clmm_swap
use poison_dart.Pools.Aftermath.Swap as aftermath_swap
use poison_dart.Pools.KriyaClmm.Flash as kriya_clmm_flash
use poison_dart.Pools.Cetus.Flash as cetus_flash
use poison_dart.Pools.FlowxClmm.Flash as flowx_clmm_flash
use poison_dart.Trade.{Argument, Builder, TradeCtx, FlashResult}
use poison_dart.Trade.Trader.{TradeOps}
use poison_dart.Pools.Dexes.{AnyDex}

-- The default of the trait is `false`.
unfoldable pub support_flashloan : AnyDex → Bool
support_flashloan (AnyDex.kriya_clmm d) = true
support_flashloan (AnyDex.cetus d) = true
support_flashloan _ = false

module _ {B : Type 0} (builder : Builder B ObjectArg) (now_millis : ℕ) where
  -- By default no flash loan is supported.
  unfoldable pub extend_flashloan_tx :
      AnyDex → TradeCtx B → (amount_in : ℕ) → Result (FlashResult × TradeCtx B)
  unfolding kriya_clmm_flash.extend_flashloan_tx cetus_flash.extend_flashloan_tx
      flowx_clmm_flash.extend_flashloan_tx
  extend_flashloan_tx (AnyDex.kriya_clmm d) ctx amount_in =
      kriya_clmm_flash.extend_flashloan_tx builder d amount_in ctx
  extend_flashloan_tx (AnyDex.cetus d) ctx amount_in =
      cetus_flash.extend_flashloan_tx builder d amount_in ctx
  extend_flashloan_tx (AnyDex.flowx_clmm d) ctx amount_in =
      flowx_clmm_flash.extend_flashloan_tx builder d amount_in ctx
  extend_flashloan_tx _ ctx amount_in = err "flashloan not supported"

  unfoldable pub extend_repay_tx :
      AnyDex → TradeCtx B → (coin : Argument) → FlashResult → Result (Argument × TradeCtx B)
  unfolding kriya_clmm_flash.extend_repay_tx cetus_flash.extend_repay_tx
      flowx_clmm_flash.extend_repay_tx
  extend_repay_tx (AnyDex.kriya_clmm d) ctx coin flash_res =
      kriya_clmm_flash.extend_repay_tx builder d coin flash_res ctx
  extend_repay_tx (AnyDex.cetus d) ctx coin flash_res =
      cetus_flash.extend_repay_tx builder d coin flash_res ctx
  extend_repay_tx (AnyDex.flowx_clmm d) ctx coin flash_res =
      flowx_clmm_flash.extend_repay_tx builder d coin flash_res ctx
  extend_repay_tx _ ctx coin flash_res = err "flashloan not supported"

  unfoldable pub extend_trade_tx :
      AnyDex
      → TradeCtx B
      → (sender : ℕ) → (coin_in : Argument) → (amount_in : Option ℕ)
      → Result (Argument × TradeCtx B)
  unfolding kriya_amm_swap.extend_trade_tx turbos_swap.extend_trade_tx
      blue_move_swap.extend_trade_tx deepbook_v2_swap.extend_trade_tx
      kriya_clmm_swap.extend_trade_tx cetus_swap.extend_trade_tx flowx_clmm_swap.extend_trade_tx
      aftermath_swap.extend_trade_tx
  extend_trade_tx (AnyDex.kriya_amm d) ctx sender coin_in amount_in =
      kriya_amm_swap.extend_trade_tx builder d sender coin_in amount_in ctx
  extend_trade_tx (AnyDex.turbos d) ctx sender coin_in amount_in =
      turbos_swap.extend_trade_tx builder d sender coin_in amount_in ctx
  extend_trade_tx (AnyDex.blue_move d) ctx sender coin_in amount_in =
      blue_move_swap.extend_trade_tx builder d sender coin_in amount_in ctx
  extend_trade_tx (AnyDex.deepbook_v2 d) ctx sender coin_in amount_in =
      deepbook_v2_swap.extend_trade_tx builder d sender coin_in amount_in ctx
  extend_trade_tx (AnyDex.kriya_clmm d) ctx sender coin_in amount_in =
      kriya_clmm_swap.extend_trade_tx builder d sender coin_in amount_in ctx
  extend_trade_tx (AnyDex.cetus d) ctx sender coin_in amount_in =
      cetus_swap.extend_trade_tx builder d sender coin_in amount_in ctx
  extend_trade_tx (AnyDex.flowx_clmm d) ctx sender coin_in amount_in =
      flowx_clmm_swap.extend_trade_tx builder now_millis d sender coin_in amount_in ctx
  extend_trade_tx (AnyDex.aftermath d) ctx sender coin_in amount_in =
      aftermath_swap.extend_trade_tx builder d sender coin_in amount_in ctx

  unfoldable pub trade_ops : TradeOps AnyDex B
  unfolding extend_flashloan_tx extend_repay_tx extend_trade_tx support_flashloan
  trade_ops = record {
    support_flashloan = support_flashloan;
    extend_flashloan_tx = extend_flashloan_tx;
    extend_repay_tx = extend_repay_tx;
    extend_trade_tx = extend_trade_tx;
  }
