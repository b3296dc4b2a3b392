-- ===== src/Tests/Search.antt =====
-- Runs of `bin/arb/src/common/search.rs`.
use poison_dart.Base.{ℕ, ◌-◌, ◌*◌, ◌≤◌, ◌≡◌, refl, List, [], ok, err, arith, length}
use poison_dart.Search.{Goal, shorten, golden_section_search_maximize}
use poison_dart.Search.Best.{Entry, IsBest, watched}
use poison_dart.Search.Answer
use poison_dart.Search.Section

-- The goal of the first unit test: ten times the input.
abbrev ten_times : Goal ℕ (Unit {0})
ten_times x env = ((x * 10, 0), env)

search_ten_times : golden_section_search_maximize ten_times 1 9 tt ≡ ok ((9, 90, 0), tt)
unfolding golden_section_search_maximize shorten
search_ten_times = refl

search_bounds : golden_section_search_maximize ten_times 9 9 tt ≡ err "assertion failed: min < max"
unfolding golden_section_search_maximize
search_bounds = refl

-- One peak, at 8, and the search returns 9.
abbrev peak : Goal ℕ (Unit {0})
peak x env = ((1000 - (8 - x) - (x - 8), 0), env)

search_peak : golden_section_search_maximize peak 0 9 tt ≡ ok ((9, 999, 0), tt)
unfolding golden_section_search_maximize shorten
search_peak = refl

search-IsBest_example :
    (best : Entry ℕ) × (env : Unit {0}) × (log : List (Entry ℕ)) × (golden_section_search_maximize
        ten_times 1 9 tt
      ≡ ok (best, env))
    × (golden_section_search_maximize (watched ten_times) 1 9 (tt, []) ≡ ok (best, (env, log)))
    × IsBest best log
    × (length log ≤ 1006)
search-IsBest_example = Answer.search-IsBest ten_times 1 9 tt (omega arith)

-- The least length whose product wraps: it wraps to less.
abbrev wrapping : ℕ
wrapping = 2049048787378
