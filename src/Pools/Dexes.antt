-- ===== src/Pools/Dexes.antt =====
-- `bin/arb/src/defi/mod.rs`, the trait `Dex` over the pools of the protocols: `Box<dyn Dex>`, and
-- each method by the protocol of the pool.
use poison_dart.Base.{ℕ, ◌≡◌, refl, Bool, String}
use poison_dart.Dex.{DexOps}
use poison_dart.Index.{Protocol}
use poison_dart.Pools.KriyaAmm as kriya_amm_pool
use poison_dart.Pools.KriyaAmm.{KriyaAmm}
use poison_dart.Pools.Turbos as turbos_pool
use poison_dart.Pools.Turbos.{Turbos}
use poison_dart.Pools.BlueMove as blue_move_pool
use poison_dart.Pools.BlueMove.{BlueMove}
use poison_dart.Pools.DeepbookV2 as deepbook_v2_pool
use poison_dart.Pools.DeepbookV2.{DeepbookV2}
use poison_dart.Pools.KriyaClmm as kriya_clmm_pool
use poison_dart.Pools.KriyaClmm.{KriyaClmm}
use poison_dart.Pools.Cetus as cetus_pool
use poison_dart.Pools.Cetus.{Cetus}
use poison_dart.Pools.FlowxClmm as flowx_clmm_pool
use poison_dart.Pools.FlowxClmm.{FlowxClmm}
use poison_dart.Pools.Aftermath as aftermath_pool
use poison_dart.Pools.Aftermath.{Aftermath}

pub data AnyDex : Type 0 where
  kriya_amm : KriyaAmm → AnyDex
  turbos : Turbos → AnyDex
  blue_move : BlueMove → AnyDex
  deepbook_v2 : DeepbookV2 → AnyDex
  kriya_clmm : KriyaClmm → AnyDex
  cetus : Cetus → AnyDex
  flowx_clmm : FlowxClmm → AnyDex
  aftermath : Aftermath → AnyDex

unfoldable pub protocol : AnyDex → Protocol
protocol (AnyDex.kriya_amm d) = Protocol.kriya_amm
protocol (AnyDex.turbos d) = Protocol.turbos
protocol (AnyDex.blue_move d) = Protocol.blue_move
protocol (AnyDex.deepbook_v2 d) = Protocol.deepbook_v2
protocol (AnyDex.kriya_clmm d) = Protocol.kriya_clmm
protocol (AnyDex.cetus d) = Protocol.cetus
protocol (AnyDex.flowx_clmm d) = Protocol.flowx_clmm
protocol (AnyDex.aftermath d) = Protocol.aftermath

unfoldable pub coin_in_type : AnyDex → String
coin_in_type (AnyDex.kriya_amm d) = d.coin_in_type
coin_in_type (AnyDex.turbos d) = d.coin_in_type
coin_in_type (AnyDex.blue_move d) = d.coin_in_type
coin_in_type (AnyDex.deepbook_v2 d) = d.coin_in_type
coin_in_type (AnyDex.kriya_clmm d) = d.coin_in_type
coin_in_type (AnyDex.cetus d) = d.coin_in_type
coin_in_type (AnyDex.flowx_clmm d) = d.coin_in_type
coin_in_type (AnyDex.aftermath d) = d.coin_in_type

unfoldable pub coin_out_type : AnyDex → String
coin_out_type (AnyDex.kriya_amm d) = d.coin_out_type
coin_out_type (AnyDex.turbos d) = d.coin_out_type
coin_out_type (AnyDex.blue_move d) = d.coin_out_type
coin_out_type (AnyDex.deepbook_v2 d) = d.coin_out_type
coin_out_type (AnyDex.kriya_clmm d) = d.coin_out_type
coin_out_type (AnyDex.cetus d) = d.coin_out_type
coin_out_type (AnyDex.flowx_clmm d) = d.coin_out_type
coin_out_type (AnyDex.aftermath d) = d.coin_out_type

unfoldable pub liquidity : AnyDex → ℕ
unfolding deepbook_v2_pool.liquidity
liquidity (AnyDex.kriya_amm d) = d.liquidity
liquidity (AnyDex.turbos d) = d.liquidity
liquidity (AnyDex.blue_move d) = d.liquidity
liquidity (AnyDex.deepbook_v2 d) = deepbook_v2_pool.liquidity d
liquidity (AnyDex.kriya_clmm d) = d.liquidity
liquidity (AnyDex.cetus d) = d.liquidity
liquidity (AnyDex.flowx_clmm d) = d.liquidity
liquidity (AnyDex.aftermath d) = d.liquidity

unfoldable pub object_id : AnyDex → ℕ
unfolding aftermath_pool.object_id
object_id (AnyDex.kriya_amm d) = d.pool.pool
object_id (AnyDex.turbos d) = d.pool.pool
object_id (AnyDex.blue_move d) = d.pool.pool
object_id (AnyDex.deepbook_v2 d) = d.pool.pool
object_id (AnyDex.kriya_clmm d) = d.pool.pool
object_id (AnyDex.cetus d) = d.pool.pool
object_id (AnyDex.flowx_clmm d) = d.pool.pool
object_id (AnyDex.aftermath d) = aftermath_pool.object_id d

unfoldable pub flip : AnyDex → AnyDex
unfolding kriya_amm_pool.flip turbos_pool.flip blue_move_pool.flip deepbook_v2_pool.flip
    kriya_clmm_pool.flip cetus_pool.flip flowx_clmm_pool.flip aftermath_pool.flip
flip (AnyDex.kriya_amm d) = AnyDex.kriya_amm (kriya_amm_pool.flip d)
flip (AnyDex.turbos d) = AnyDex.turbos (turbos_pool.flip d)
flip (AnyDex.blue_move d) = AnyDex.blue_move (blue_move_pool.flip d)
flip (AnyDex.deepbook_v2 d) = AnyDex.deepbook_v2 (deepbook_v2_pool.flip d)
flip (AnyDex.kriya_clmm d) = AnyDex.kriya_clmm (kriya_clmm_pool.flip d)
flip (AnyDex.cetus d) = AnyDex.cetus (cetus_pool.flip d)
flip (AnyDex.flowx_clmm d) = AnyDex.flowx_clmm (flowx_clmm_pool.flip d)
flip (AnyDex.aftermath d) = AnyDex.aftermath (aftermath_pool.flip d)

unfoldable pub is_a2b : AnyDex → Bool
unfolding kriya_amm_pool.is_a2b turbos_pool.is_a2b blue_move_pool.is_a2b deepbook_v2_pool.is_a2b
    kriya_clmm_pool.is_a2b cetus_pool.is_a2b flowx_clmm_pool.is_a2b aftermath_pool.is_a2b
is_a2b (AnyDex.kriya_amm d) = kriya_amm_pool.is_a2b d
is_a2b (AnyDex.turbos d) = turbos_pool.is_a2b d
is_a2b (AnyDex.blue_move d) = blue_move_pool.is_a2b d
is_a2b (AnyDex.deepbook_v2 d) = deepbook_v2_pool.is_a2b d
is_a2b (AnyDex.kriya_clmm d) = kriya_clmm_pool.is_a2b d
is_a2b (AnyDex.cetus d) = cetus_pool.is_a2b d
is_a2b (AnyDex.flowx_clmm d) = flowx_clmm_pool.is_a2b d
is_a2b (AnyDex.aftermath d) = aftermath_pool.is_a2b d

pub coin_in_type-flip : (d : AnyDex) → coin_in_type (flip d) ≡ coin_out_type d
unfolding flip coin_in_type coin_out_type
coin_in_type-flip (AnyDex.kriya_amm d) = refl
coin_in_type-flip (AnyDex.turbos d) = refl
coin_in_type-flip (AnyDex.blue_move d) = refl
coin_in_type-flip (AnyDex.deepbook_v2 d) = refl
coin_in_type-flip (AnyDex.kriya_clmm d) = refl
coin_in_type-flip (AnyDex.cetus d) = refl
coin_in_type-flip (AnyDex.flowx_clmm d) = refl
coin_in_type-flip (AnyDex.aftermath d) = refl

pub coin_out_type-flip : (d : AnyDex) → coin_out_type (flip d) ≡ coin_in_type d
unfolding flip coin_out_type coin_in_type
coin_out_type-flip (AnyDex.kriya_amm d) = refl
coin_out_type-flip (AnyDex.turbos d) = refl
coin_out_type-flip (AnyDex.blue_move d) = refl
coin_out_type-flip (AnyDex.deepbook_v2 d) = refl
coin_out_type-flip (AnyDex.kriya_clmm d) = refl
coin_out_type-flip (AnyDex.cetus d) = refl
coin_out_type-flip (AnyDex.flowx_clmm d) = refl
coin_out_type-flip (AnyDex.aftermath d) = refl

pub liquidity-flip : (d : AnyDex) → liquidity (flip d) ≡ liquidity d
unfolding flip liquidity deepbook_v2_pool.liquidity
liquidity-flip (AnyDex.kriya_amm d) = refl
liquidity-flip (AnyDex.turbos d) = refl
liquidity-flip (AnyDex.blue_move d) = refl
liquidity-flip (AnyDex.deepbook_v2 d) = refl
liquidity-flip (AnyDex.kriya_clmm d) = refl
liquidity-flip (AnyDex.cetus d) = refl
liquidity-flip (AnyDex.flowx_clmm d) = refl
liquidity-flip (AnyDex.aftermath d) = refl

pub object_id-flip : (d : AnyDex) → object_id (flip d) ≡ object_id d
unfolding flip object_id aftermath_pool.object_id
object_id-flip (AnyDex.kriya_amm d) = refl
object_id-flip (AnyDex.turbos d) = refl
object_id-flip (AnyDex.blue_move d) = refl
object_id-flip (AnyDex.deepbook_v2 d) = refl
object_id-flip (AnyDex.kriya_clmm d) = refl
object_id-flip (AnyDex.cetus d) = refl
object_id-flip (AnyDex.flowx_clmm d) = refl
object_id-flip (AnyDex.aftermath d) = refl

unfoldable pub dex_ops : DexOps AnyDex
unfolding coin_in_type coin_out_type liquidity object_id flip
dex_ops = record {
  coin_in_type = coin_in_type;
  coin_out_type = coin_out_type;
  liquidity = liquidity;
  object_id = object_id;
  flip = flip;
  coin_in_type-flip = coin_in_type-flip;
  coin_out_type-flip = coin_out_type-flip;
  liquidity-flip = liquidity-flip;
  object_id-flip = object_id-flip;
}
