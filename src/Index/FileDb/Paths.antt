-- ===== src/Index/FileDb/Paths.antt =====
-- The protocols have files of their own.
use poison_dart.Base.{
  ℕ, ◌≡◌, ◌∙◌, refl, sym, ap, inl, inr, some, List, [], ◌∷◌, String, str_dec, ite, ◌==◌, Bool-cases,
  some_injective, arith,
}
use poison_dart.Base.Split.{append_cancel}
use poison_dart.Index.{Protocol, to_string}
use poison_dart.Index.FileDb.{discriminant, path_of}
use Prim.Native.String.{◌++◌ as ◌⧺◌}

abbrev file_name : Protocol → String
file_name p = to_string p ⧺ "_pools.txt"

abbrev file_names : List (String × ℕ)
file_names =
    (file_name Protocol.cetus, 0)
    ∷ (file_name Protocol.turbos, 1)
    ∷ (file_name Protocol.aftermath, 2)
    ∷ (file_name Protocol.kriya_amm, 3)
    ∷ (file_name Protocol.kriya_clmm, 4)
    ∷ (file_name Protocol.flowx_amm, 5)
    ∷ (file_name Protocol.flowx_clmm, 6)
    ∷ (file_name Protocol.deepbook_v2, 7)
    ∷ (file_name Protocol.deepbook_v3, 8)
    ∷ (file_name Protocol.volo, 9)
    ∷ (file_name Protocol.blue_move, 10)
    ∷ (file_name Protocol.sui_swap, 11)
    ∷ (file_name Protocol.interest, 12)
    ∷ (file_name Protocol.abex, 13)
    ∷ (file_name Protocol.baby_swap, 14)
    ∷ (file_name Protocol.navi, 15)
    ∷ []

find_name : String → List (String × ℕ) → ℕ
find_name s [] = 99
find_name s (entry ∷ entries) = ite (str_dec s entry.0) entry.1 (find_name s entries)

find_name-file_name : (p : Protocol) → find_name (file_name p) file_names ≡ discriminant p
unfolding find_name to_string discriminant str_dec
find_name-file_name Protocol.cetus = refl
find_name-file_name Protocol.turbos = refl
find_name-file_name Protocol.aftermath = refl
find_name-file_name Protocol.kriya_amm = refl
find_name-file_name Protocol.kriya_clmm = refl
find_name-file_name Protocol.flowx_amm = refl
find_name-file_name Protocol.flowx_clmm = refl
find_name-file_name Protocol.deepbook_v2 = refl
find_name-file_name Protocol.deepbook_v3 = refl
find_name-file_name Protocol.volo = refl
find_name-file_name Protocol.blue_move = refl
find_name-file_name Protocol.sui_swap = refl
find_name-file_name Protocol.interest = refl
find_name-file_name Protocol.abex = refl
find_name-file_name Protocol.baby_swap = refl
find_name-file_name Protocol.navi = refl

abbrev pub path_in : (base_path : String) → Protocol → String
path_in base_path p = base_path ⧺ ("/" ⧺ file_name p)

path_in_injective :
    (base_path : String) (p q : Protocol)
    → path_in base_path p ≡ path_in base_path q
    → discriminant p ≡ discriminant q
path_in_injective base_path p q e =
    sym (find_name-file_name p)
    ∙ ap (λ s. find_name s file_names) (append_cancel "/" _ _ (append_cancel base_path _ _ e))
    ∙ find_name-file_name q

path_of-some :
    (base_path : String) (ps : List Protocol) (p : Protocol) (path : String)
    → path_of base_path ps p ≡ some path
    → (q : Protocol) × (discriminant p ≡ discriminant q) × (path ≡ path_in base_path q)
unfolding path_of
path_of-some base_path [] p path e = absurd cc
path_of-some base_path (q ∷ qs) p path e = elim (Bool-cases (discriminant p == discriminant q)) [
  | inl d ↦ (q, ground arith, sym (some_injective (rw (path_of, d) at e)))
  | inr d ↦ path_of-some base_path qs p path (rw (path_of, d) at e)
]

-- Two protocols with one path are one protocol.
pub path_of_injective :
    (base_path : String) (ps : List Protocol) (p q : Protocol) (path : String)
    → path_of base_path ps p ≡ some path
    → path_of base_path ps q ≡ some path
    → discriminant p ≡ discriminant q
path_of_injective base_path ps p q path e e' =
    let (r, d, at) = path_of-some base_path ps p path e in
    let (r', d', at') = path_of-some base_path ps q path e' in
    d ∙ path_in_injective base_path r r' (sym at ∙ at') ∙ sym d'

-- The path depends on the variant alone.
pub path_of_same :
    (base_path : String) (ps : List Protocol) (p q : Protocol)
    → discriminant p ≡ discriminant q
    → path_of base_path ps p ≡ path_of base_path ps q
unfolding path_of
path_of_same base_path [] p q d = refl
path_of_same base_path (r ∷ rs) p q d = rw (path_of, d, path_of_same base_path rs p q d) refl
