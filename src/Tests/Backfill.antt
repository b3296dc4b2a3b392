-- ===== src/Tests/Backfill.antt =====
-- A run over two pages of events, and what is found after it.
use mathlib.Core.List.Perm
use poison_dart.Base.{
  ℕ, ◌≡◌, ◌↔◌, refl, true, false, Option, none, some, List, [], ◌∷◌, Any, Result, ok, err,
  if◌then◌else◌, ◌==◌, str_dec,
}
use poison_dart.Base.Split.{bar_free, bar_free-IsBarFree}
use poison_dart.Index.{Protocol, Token, Pool, PoolExtra}
use poison_dart.Index.Backfill.{Page, IndexState, backfill_pools_for_protocol}
use poison_dart.Index.Cache.{
  new, add_pools, supported_protocols, get_pools_by_token, get_pools_by_token01, get_pool_by_id,
}
use poison_dart.Index.Cache.Filed.{Finds}
use poison_dart.Index.Cache.Found.{
  AreTogether, get_pools_by_token-Finds, get_pools_by_token01-Finds, get_pool_by_id-latest,
}
use poison_dart.Index.FileDb.{Disk, new_db, pool_count}
use poison_dart.Index.Files.{Serde, pool_to_string, pool_try_from}
use poison_dart.Index.Files.Lines.{IsWritable, pool_try_from-pool_to_string}

abbrev tokens : List Token
tokens = record { token_type = "B"; decimals = 9 } ∷ record { token_type = "A"; decimals = 6 } ∷ []

abbrev pool : ℕ → Pool
pool id = record {
  protocol = Protocol.cetus;
  pool = id;
  tokens = tokens;
  extra = PoolExtra.cetus 25;
}

abbrev other_pool : Pool
other_pool = record {
  protocol = Protocol.turbos;
  pool = 3;
  tokens = tokens;
  extra = PoolExtra.turbos 9;
}

-- Writes what the pools of the test need: the ids 1 to 3, these tokens and these fees.
abbrev serde : Serde
serde = record {
  tokens_to_string = λ _. "[B,A]";
  tokens_from_str = λ _. ok tokens;
  extra_to_string = λ extra. elim extra [ PoolExtra.cetus _ ↦ "{25}" | _ ↦ "{9}" ];
  extra_from_str = λ s. elim (str_dec s "{25}") [
    | yes _ ↦ ok (PoolExtra.cetus 25)
    | no _ ↦ ok (PoolExtra.turbos 9)
  ];
  id_to_string = λ id. if id == 1 then "0x1" else if id == 2 then "0x2" else "0x3";
  parse_id = λ s. elim (str_dec s "0x1") [
    | yes _ ↦ ok 1
    | no _ ↦ elim (str_dec s "0x2") [ yes _ ↦ ok 2 | no _ ↦ ok 3 ]
  ];
}

line : pool_to_string serde (pool 1) ≡ "cetus|0x1|[B,A]|{25}"
unfolding pool_to_string
line = refl

one-IsWritable : IsWritable serde (pool 1)
unfolding str_dec bar_free
one-IsWritable = record {
  id-IsBarFree = bar_free-IsBarFree (serde.id_to_string (pool 1).pool) refl;
  tokens-IsBarFree = bar_free-IsBarFree (serde.tokens_to_string tokens) refl;
  extra-IsBarFree = bar_free-IsBarFree (serde.extra_to_string (PoolExtra.cetus 25)) refl;
  parse_id_lem = refl;
  tokens_from_str_lem = refl;
  extra_from_str_lem = refl;
}

pool_try_from-pool_to_string_example : pool_try_from serde "cetus|0x1|[B,A]|{25}" ≡ ok (pool 1)
unfolding pool_to_string
pool_try_from-pool_to_string_example = pool_try_from-pool_to_string serde (pool 1) one-IsWritable

-- Events are numbers, which are their ids: 1 and 2 make the pools, another is invalid.
abbrev sui_event_to_pool : ℕ → Result Pool
sui_event_to_pool event =
    if event == 1 then ok (pool 1) else if event == 2 then ok (pool 2) else err "invalid"

-- Two pages and an empty one: the events 1 and 7, then 2.
abbrev answers : List (Option ℕ → Result (Page ℕ ℕ))
answers =
    (λ _. ok (record { events = 1 ∷ 7 ∷ []; has_next_page = true; next_cursor = some 7 }))
    ∷ (λ _. ok (record { events = 2 ∷ []; has_next_page = false; next_cursor = none }))
    ∷ (λ _. ok (record { events = []; has_next_page = false; next_cursor = none }))
    ∷ []

-- A pool of another protocol is there already.
abbrev disk : Disk ℕ
disk = record {
  files = λ path. elim (str_dec path "data/turbos_pools.txt") [
    | yes _ ↦ some ("turbos|0x3|[B,A]|{9}" ∷ [])
    | no _ ↦ none
  ];
  cursors_file = none;
}

abbrev start : IndexState ℕ
start = record {
  pool_cache = add_pools new (other_pool ∷ []);
  db = new_db disk "data" supported_protocols;
  disk = disk;
}

abbrev end : IndexState ℕ × Option (Result (Unit {0}))
end = backfill_pools_for_protocol (λ e. e) sui_event_to_pool serde Protocol.cetus none answers start

ended : end.1 ≡ some (ok tt)
unfolding backfill_pools_for_protocol str_dec new_db supported_protocols
ended = refl

count_run : pool_count end.0.db end.0.disk Protocol.cetus ≡ ok 2
unfolding backfill_pools_for_protocol pool_count str_dec new_db supported_protocols
count_run = refl

abbrev pools : List Pool
pools = pool 1 ∷ pool 2 ∷ []

get_pools_by_token-Finds_example :
    Finds (get_pools_by_token (add_pools new pools) "A") 2
    ↔ Any (λ p. (p.pool ≡ 2) × Any (λ (t : Token). t.token_type ≡ "A") p.tokens) pools
get_pools_by_token-Finds_example = get_pools_by_token-Finds pools "A" 2

get_pools_by_token01-Finds_example :
    Finds (get_pools_by_token01 (add_pools new pools) "A" "B") 2
    ↔ Any (λ p. (p.pool ≡ 2) × AreTogether "A" "B" p) pools
get_pools_by_token01-Finds_example = get_pools_by_token01-Finds pools "A" "B" 2

by_id_run : get_pool_by_id (add_pools new pools) 2 ≡ some (pool 2)
by_id_run = get_pool_by_id-latest pools 2
