-- ===== src/Index/Names.antt =====
-- The names of the protocols are read back.
use poison_dart.Base.{
  ◌≡◌, ◌↔◌, refl, sym, ◌∙◌, subst, List, [], ◌∷◌, String, str_dec, All, ok, ok_injective, arith,
  if_pos, if_neg,
}
use poison_dart.Index.{Protocol, to_string, arms, match_arms, try_from}

match_arms_lem :
    (value : String) (p : Protocol) (rest : List (String × Protocol))
    → All (λ (arm : String × Protocol). arm.0 ≡ to_string arm.1) rest
    → match_arms value rest ≡ ok p
    → value ≡ to_string p
unfolding match_arms
match_arms_lem value p [] h e = absurd cc
match_arms_lem value p (arm ∷ rest) h e = elim (str_dec value arm.0) [
  | yes q ↦
      subst (λ x. value ≡ to_string x) (ok_injective (rw (if_pos (str_dec value arm.0) q) at e))
        (q ∙ h.0)
  | no n ↦ match_arms_lem value p rest h.1 (rw (if_neg (str_dec value arm.0) n) at e)
]

arms_lem : All (λ (arm : String × Protocol). arm.0 ≡ to_string arm.1) arms
unfolding to_string
arms_lem = ground arith

try_from-to_string : (p : Protocol) → try_from (to_string p) ≡ ok p
unfolding try_from to_string str_dec
try_from-to_string Protocol.cetus = refl
try_from-to_string Protocol.turbos = refl
try_from-to_string Protocol.aftermath = refl
try_from-to_string Protocol.kriya_amm = refl
try_from-to_string Protocol.kriya_clmm = refl
try_from-to_string Protocol.flowx_amm = refl
try_from-to_string Protocol.flowx_clmm = refl
try_from-to_string Protocol.deepbook_v2 = refl
try_from-to_string Protocol.deepbook_v3 = refl
try_from-to_string Protocol.volo = refl
try_from-to_string Protocol.blue_move = refl
try_from-to_string Protocol.sui_swap = refl
try_from-to_string Protocol.interest = refl
try_from-to_string Protocol.abex = refl
try_from-to_string Protocol.baby_swap = refl
try_from-to_string Protocol.navi = refl

-- A text is read as a protocol exactly when it is the name that this protocol is written as.
pub try_from_iff : (value : String) (p : Protocol) → (try_from value ≡ ok p) ↔ (value ≡ to_string p)
unfolding try_from
try_from_iff value p = (
  match_arms_lem value p arms arms_lem,
  λ e. subst (λ v. try_from v ≡ ok p) (sym e) (try_from-to_string p),
)
