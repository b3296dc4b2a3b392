-- ===== src/Index/Files/Lines.antt =====
-- A pool is read back from its line.
use poison_dart.Base.{◌≡◌, refl, ap, ◌∙◌, String, [], ◌∷◌, ok, true}
use poison_dart.Base.Split.{
  split, split-append, split-IsBarFree, IsBarFree, bar_free, bar_free-IsBarFree,
}
use poison_dart.Index.{Protocol, to_string, Pool}
use poison_dart.Index.Files.{Serde, pool_to_string, pool_try_from}
use poison_dart.Index.Names.{try_from_iff}
use Prim.Native.String.{◌++◌ as ◌⧺◌}

-- The parts of the pool are written without a bar, and read back.
pub record IsWritable (serde : Serde) (p : Pool) : Type 0 where
  pub id-IsBarFree : IsBarFree (serde.id_to_string p.pool)
  pub tokens-IsBarFree : IsBarFree (serde.tokens_to_string p.tokens)
  pub extra-IsBarFree : IsBarFree (serde.extra_to_string p.extra)
  pub parse_id_lem : serde.parse_id (serde.id_to_string p.pool) ≡ ok p.pool
  pub tokens_from_str_lem : serde.tokens_from_str (serde.tokens_to_string p.tokens) ≡ ok p.tokens
  pub extra_from_str_lem : serde.extra_from_str (serde.extra_to_string p.extra) ≡ ok p.extra

to_string-IsBarFree : (p : Protocol) → IsBarFree (to_string p)
unfolding bar_free to_string
to_string-IsBarFree p = bar_free-IsBarFree (to_string p) (tested p)
  where
    tested : (p : Protocol) → bar_free (to_string p) ≡ true
    tested Protocol.cetus = refl
    tested Protocol.turbos = refl
    tested Protocol.aftermath = refl
    tested Protocol.kriya_amm = refl
    tested Protocol.kriya_clmm = refl
    tested Protocol.flowx_amm = refl
    tested Protocol.flowx_clmm = refl
    tested Protocol.deepbook_v2 = refl
    tested Protocol.deepbook_v3 = refl
    tested Protocol.volo = refl
    tested Protocol.blue_move = refl
    tested Protocol.sui_swap = refl
    tested Protocol.interest = refl
    tested Protocol.abex = refl
    tested Protocol.baby_swap = refl
    tested Protocol.navi = refl

split_parts :
    (a b c d : String)
    → IsBarFree a
    → IsBarFree b
    → IsBarFree c
    → IsBarFree d
    → split (a ⧺ ("|" ⧺ (b ⧺ ("|" ⧺ (c ⧺ ("|" ⧺ d)))))) ≡ a ∷ b ∷ c ∷ d ∷ []
split_parts a b c d h k l m =
    split-append a (b ⧺ ("|" ⧺ (c ⧺ ("|" ⧺ d)))) h
    ∙ ap (λ r. a ∷ r)
        (split-append b (c ⧺ ("|" ⧺ d)) k
          ∙ ap (λ r. b ∷ r) (split-append c d l ∙ ap (λ r. c ∷ r) (split-IsBarFree d m)))

-- A pool is read back from its text, where `serde_json` reads its parts back and writes them without
-- a bar.
pub pool_try_from-pool_to_string :
    (serde : Serde) (p : Pool)
    → IsWritable serde p
    → pool_try_from serde (pool_to_string serde p) ≡ ok p
unfolding pool_try_from pool_to_string
pool_try_from-pool_to_string serde p w =
    rw
      (
        pool_try_from,
        pool_to_string,
        split_parts (to_string p.protocol) (serde.id_to_string p.pool)
            (serde.tokens_to_string p.tokens) (serde.extra_to_string p.extra)
            (to_string-IsBarFree p.protocol) w.id-IsBarFree w.tokens-IsBarFree w.extra-IsBarFree,
        (try_from_iff (to_string p.protocol) p.protocol).1 refl,
        w.parse_id_lem,
        w.tokens_from_str_lem,
        w.extra_from_str_lem,
      )
      refl
