-- ===== src/Index/Files.antt =====
-- The text of a pool, `crates/dex-indexer/src/types.rs`.
pub mod Lines
use poison_dart.Base.{ℕ, List, [], ◌∷◌, String, Result, ok, err, ◌>>=◌}
use poison_dart.Base.Split.{split}
use poison_dart.Index.{Protocol, to_string, try_from, Token, PoolExtra, Pool}
use Prim.Native.String.{◌++◌ as ◌⧺◌}

-- `serde_json` on tokens and on what a pool keeps of its protocol, and the ids of objects as texts.
pub record Serde : Type 0 where
  pub tokens_to_string : List Token → String
  pub tokens_from_str : String → Result (List Token)
  pub extra_to_string : PoolExtra → String
  pub extra_from_str : String → Result PoolExtra
  pub id_to_string : ℕ → String
  pub parse_id : String → Result ℕ

module _ (serde : Serde) where
  -- `Display`: protocol|pool|tokens|extra.
  unfoldable pub pool_to_string : Pool → String
  unfolding to_string
  pool_to_string p =
      to_string p.protocol
      ⧺ ("|"
          ⧺ (serde.id_to_string p.pool
              ⧺ ("|" ⧺ (serde.tokens_to_string p.tokens ⧺ ("|" ⧺ serde.extra_to_string p.extra)))))

  -- `TryFrom<&str>`.
  unfoldable pub pool_try_from : String → Result Pool
  unfolding split try_from
  pool_try_from value = elim (split value) [
    | a ∷ b ∷ c ∷ d ∷ [] ↦ do
      protocol ← try_from a
      pool ← serde.parse_id b
      tokens ← serde.tokens_from_str c
      extra ← serde.extra_from_str d
      ok (record { protocol = protocol; pool = pool; tokens = tokens; extra = extra })
    | _ ↦ err "Invalid pool format"
  ]
