-- ===== src/Tests/Dexes.antt =====
-- Two pools between a coin and SUI, for the tests.
use poison_dart.Base.{
  ℕ, suc, ◌+◌, ◌≤◌, ◌≡◌, min, sym, subst, inl, inr, map, arith, length, Any, All-imp, ok_injective,
  refl, String, Option, some, List, [], ◌∷◌, ite, str_dec, All, Result, ok, err,
}
use poison_dart.Dex.{DexOps, DexPath, sui_coin_type}
use poison_dart.Base.Int.{pos}
use poison_dart.Best.{TradeType, TradeResult, Joined}
use poison_dart.Best.Choice.{HasEnded}
use poison_dart.Arb.{TrialResult}
use poison_dart.Arb.Tasks.{IsOrder}
use poison_dart.Paths.Selected.{FindsFrom}

pub record Pool : Type 0 where
  pub id : ℕ
  pub coin_in : String
  pub coin_out : String
  pub liquidity : ℕ

abbrev pub flip : Pool → Pool
flip p = record { id = p.id; coin_in = p.coin_out; coin_out = p.coin_in; liquidity = p.liquidity }

abbrev pub pool_ops : DexOps Pool
pool_ops = record {
  coin_in_type = λ p. p.coin_in;
  coin_out_type = λ p. p.coin_out;
  liquidity = λ p. p.liquidity;
  object_id = λ p. p.id;
  flip = flip;
  coin_in_type-flip = λ p. refl;
  coin_out_type-flip = λ p. refl;
  liquidity-flip = λ p. refl;
  object_id-flip = λ p. refl;
}

abbrev pub ocean : String
ocean = "0xa8816d3a6e3136e86bc2873b1f94a15cadc8af2703c075f2d546c2ae367f4df9::ocean::OCEAN"

abbrev pub cetus : Pool
cetus = record { id = 1; coin_in = ocean; coin_out = sui_coin_type; liquidity = 5000 }

abbrev pub kriya : Pool
kriya = record { id = 2; coin_in = ocean; coin_out = sui_coin_type; liquidity = 3000 }

-- Below the minimal liquidity.
abbrev pub shallow : Pool
shallow = record { id = 3; coin_in = ocean; coin_out = sui_coin_type; liquidity = 999 }

-- A searcher that knows these three.
abbrev pub find_dexes : String → Option String → Result (List Pool)
find_dexes coin_in _ =
    ite (str_dec coin_in ocean) (ok (cetus ∷ shallow ∷ kriya ∷ [])) (err "no dexes")

pub find_dexes-FindsFrom : FindsFrom pool_ops find_dexes
find_dexes-FindsFrom coin out dexes h = found (str_dec coin ocean) h
  where
    found :
        (d : Dec (coin ≡ ocean))
        → ite d (ok (cetus ∷ shallow ∷ kriya ∷ [])) (err "no dexes") ≡ ok dexes
        → All (λ p. p.coin_in ≡ coin) dexes
    found (yes e) q =
        subst (All (λ p. p.coin_in ≡ coin)) (ok_injective q) (sym e, (sym e, (sym e, tt)))
    found (no n) q = absurd cc

-- A trade gives what it takes in and as much again, at most a SUI.
abbrev pub trade : ℕ → TradeResult
trade amount = record {
  amount_out = amount + min amount 1_000_000_000;
  gas_cost = pos 0;
  cache_misses = 1;
}

abbrev pub simulate_from : ℕ → List (DexPath Pool) → ℕ → List Joined
simulate_from idx [] amount = []
simulate_from idx (p ∷ ps) amount =
    (idx, some (ok (trade amount))) ∷ simulate_from (suc idx) ps amount

abbrev pub simulate : List (DexPath Pool) → ℕ → TradeType → List Joined
simulate paths amount type = simulate_from 0 paths amount

simulate_from-HasEnded :
    (n idx : ℕ) (paths : List (DexPath Pool)) (amount : ℕ)
    → idx + length paths ≤ n
    → All (HasEnded n) (simulate_from idx paths amount)
simulate_from-HasEnded n idx [] amount h = tt
simulate_from-HasEnded n idx (p ∷ ps) amount h =
    (omega arith, simulate_from-HasEnded n (suc idx) ps amount (omega arith))

pub simulate-HasEnded :
    (paths : List (DexPath Pool)) (amount : ℕ) (type : TradeType)
    → All (HasEnded (length paths)) (simulate paths amount type)
simulate-HasEnded paths amount type =
    simulate_from-HasEnded (length paths) 0 paths amount (omega arith)

-- The tasks end in the order in which they start.
abbrev pub in_order : List (Result (TrialResult Pool)) → List (Option (Result (TrialResult Pool)))
in_order tasks = map some tasks

pub in_order-IsOrder : (tasks : List (Result (TrialResult Pool))) → IsOrder tasks (in_order tasks)
in_order-IsOrder tasks = record { from = from tasks; all = all tasks }
  where
    from :
        (tasks : List (Result (TrialResult Pool)))
        → All (λ j. Any (λ t. j ≡ some t) tasks) (map some tasks)
    from [] = tt
    from (t ∷ ts) =
        (inl refl, All-imp (λ j. Any (λ u. j ≡ some u) ts) _ (λ j m. inr m) (map some ts) (from ts))

    all :
        (tasks : List (Result (TrialResult Pool)))
        → All (λ t. Any (λ j. j ≡ some t) (map some tasks)) tasks
    all [] = tt
    all (t ∷ ts) =
        (inl refl, All-imp (λ u. Any (λ j. j ≡ some u) (map some ts)) _ (λ u m. inr m) ts (all ts))
