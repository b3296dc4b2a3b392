-- ===== src/Tests/Index.antt =====
-- The index on a pool of three tokens.
use poison_dart.Base.{◌≡◌, ◌↔◌, refl, none, some, [], ◌∷◌, String, Any, str_dec, ok}
use poison_dart.Dex.{sui_coin_type}
use poison_dart.Index.{
  Protocol, to_string, try_from, Pool, PoolExtra, token01_pairs, token_index,
  involved_coin_one_side,
}
use poison_dart.Index.Names.{try_from_iff}
use poison_dart.Index.Pairs.{AreInOrder, token01_pairs-AreInOrder}

abbrev three : Pool
three = record {
  protocol = Protocol.aftermath;
  pool = 5;
  tokens =
      record { token_type = "A"; decimals = 9 }
      ∷ record { token_type = "B"; decimals = 6 }
      ∷ record { token_type = "C"; decimals = 6 }
      ∷ [];
  extra = PoolExtra.no_extra;
}

pairs_of_three : token01_pairs three ≡ ("A", "B") ∷ ("A", "C") ∷ ("B", "C") ∷ []
unfolding token01_pairs
pairs_of_three = refl

index_of_C : token_index three "C" ≡ some 2
unfolding token_index str_dec
index_of_C = refl

-- A swap that gives SUI for a coin involves the coin, and so does one that takes SUI.
involved :
    involved_coin_one_side (record {
      protocol = Protocol.cetus;
      pool = none;
      coins_in = sui_coin_type ∷ [];
      coins_out = "B" ∷ [];
    })
    ≡ some "B"
unfolding involved_coin_one_side str_dec
involved = refl

try_from_iff_example :
    (try_from "suiswap" ≡ ok Protocol.sui_swap) ↔ ("suiswap" ≡ to_string Protocol.sui_swap)
try_from_iff_example = try_from_iff "suiswap" Protocol.sui_swap

token01_pairs-AreInOrder_example :
    Any (λ (q : String × String). q ≡ ("A", "C")) (token01_pairs three)
    ↔ AreInOrder three.tokens ("A", "C")
token01_pairs-AreInOrder_example = token01_pairs-AreInOrder three ("A", "C")
