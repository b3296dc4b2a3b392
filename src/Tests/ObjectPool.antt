-- ===== src/Tests/ObjectPool.antt =====
-- A pool of three objects that hands out four.
use poison_dart.Base.{◌≡◌, refl, some, [], ◌∷◌}
use poison_dart.ObjectPool.{new, get}
use poison_dart.ObjectPool.Even.{IsEven, gets, gets-IsEven}

four : gets 4 (new 3) ≡ 3 ∷ 2 ∷ 2 ∷ []
unfolding get new
four = refl

least_first : get (2 ∷ 1 ∷ 1 ∷ []) ≡ some (1, 2 ∷ 2 ∷ 1 ∷ [])
unfolding get
least_first = refl

gets-IsEven_example : IsEven (gets 4 (new 3))
gets-IsEven_example = gets-IsEven 3 4
