-- ===== src/Move.antt =====
-- `crates/utils/src/object.rs`, on the objects of the chain. How an object is fetched and parsed is
-- outside: the simulator and the SDK are the record `Chain`, the values of Move the record `MoveOps`.
use poison_dart.Base.{ℕ, Bool, Option, none, some, List, [], ◌∷◌, String, Result, ok, ok_or, ◌>>=◌}

-- `ObjectArg` of the SDK.
pub data ObjectArg : Type 0 where
  shared_object : (id initial_shared_version : ℕ) (is_mutable : Bool) → ObjectArg
  imm_or_owned_object : (id : ℕ) → ObjectArg

unfoldable pub id : ObjectArg → ℕ
id (ObjectArg.shared_object i _ _) = i
id (ObjectArg.imm_or_owned_object i) = i

-- `Owner`: a shared object has its initial version.
pub record Object (C : Type 0) : Type 0 where
  pub id : ℕ
  pub initial_shared_version : Option ℕ
  -- `data.try_as_move()`.
  pub contents : Option C

unfoldable pub shared_obj_arg : {C : Type 0} → Object C → (is_mutable : Bool) → ObjectArg
shared_obj_arg obj is_mutable = elim (obj.initial_shared_version) [
  | some version ↦ ObjectArg.shared_object obj.id version is_mutable
  | none ↦ ObjectArg.shared_object obj.id 0 is_mutable
]

-- `MoveStruct` and `MoveValue` of the SDK: the fields of a struct, its type parameters, and the
-- patterns that a value is matched with.
pub record MoveOps (S V : Type 0) : Type 0 where
  pub extract_field_from_move_struct : S → String → Option V
  pub type_params : S → List String
  pub as_struct : V → Option S
  pub as_vector : V → Option (List V)
  pub as_address : V → Option ℕ
  pub as_u32 : V → Option ℕ
  pub as_u64 : V → Option ℕ
  pub as_u128 : V → Option ℕ
  pub as_bool : V → Option Bool

-- `iter().map(...).collect::<Result<Vec<_>>>()`.
unfoldable pub collect : {V A : Type 0} → (V → Result A) → List V → Result (List A)
collect f [] = ok []
collect f (v ∷ vs) = do a ← f v; rest ← collect f vs; ok (a ∷ rest)

module _ {S V : Type 0} (move : MoveOps S V) where
  open move use {extract_field_from_move_struct, as_struct, as_vector}

  -- The field, matched with a pattern.
  abbrev extract : {A : Type 0} → (V → Option A) → (expected : String) → S → String → Result A
  extract pattern_of expected move_struct field_name = do
    v ← ok_or (extract_field_from_move_struct move_struct field_name) "field not found"
    ok_or (pattern_of v) expected

  unfoldable pub extract_struct_from_move_struct : S → String → Result S
  extract_struct_from_move_struct = extract as_struct "expected struct"

  unfoldable pub extract_vec_from_move_struct : S → String → Result (List V)
  extract_vec_from_move_struct = extract as_vector "expected vector"

  unfoldable pub extract_object_id_from_move_struct : S → String → Result ℕ
  extract_object_id_from_move_struct = extract move.as_address "expected address"

  unfoldable pub extract_struct_array_from_move_struct : S → String → Result (List S)
  unfolding collect
  extract_struct_array_from_move_struct s field_name = do
    vs ← extract as_vector "expected array" s field_name
    collect (λ v. ok_or (as_struct v) "expected struct") vs

  unfoldable pub extract_u128_from_move_struct : S → String → Result ℕ
  extract_u128_from_move_struct = extract move.as_u128 "expected u128"

  unfoldable pub extract_u64_from_move_struct : S → String → Result ℕ
  extract_u64_from_move_struct = extract move.as_u64 "expected u64"

  unfoldable pub extract_u32_from_move_struct : S → String → Result ℕ
  extract_u32_from_move_struct = extract move.as_u32 "expected u32"

  unfoldable pub extract_bool_from_move_struct : S → String → Result Bool
  extract_bool_from_move_struct = extract move.as_bool "expected bool"

  unfoldable pub extract_u64_vec_from_move_struct : S → String → Result (List ℕ)
  unfolding collect
  extract_u64_vec_from_move_struct s field_name = do
    vs ← extract as_vector "expected vector" s field_name
    collect (λ v. ok_or (move.as_u64 v) "expected u64") vs

  unfoldable pub extract_u128_vec_from_move_struct : S → String → Result (List ℕ)
  unfolding collect
  extract_u128_vec_from_move_struct s field_name = do
    vs ← extract as_vector "expected vector" s field_name
    collect (λ v. ok_or (move.as_u128 v) "expected u128") vs

-- The simulator, as far as it answers questions about objects, and the parsing of the SDK.
pub record Chain (C L S : Type 0) : Type 0 where
  pub get_object : ℕ → Option (Object C)
  pub get_object_layout : ℕ → Option L
  pub simple_deserialize : C → L → Result S
  -- `ObjectID::from_hex_literal`, on the literals of the bot.
  pub object_id : String → ℕ
  -- `TypeTag::from_str`, and back.
  pub type_tag : String → Result String
