-- ===== src/Utils/Wire/Tests.antt =====
-- wire.h: tests and examples.
use msgbroker.Prelude.{◌≡◌, refl, ◌∷◌, [], ◌++◌}
use msgbroker.Utils.Wire.{put_uint64, get_uint64}

put_one : put_uint64 258 ≡ 0 ∷ 0 ∷ 0 ∷ 0 ∷ 0 ∷ 0 ∷ 1 ∷ 2 ∷ []
put_one = refl

long_value : get_uint64 (put_uint64 81985529216486895 ++ 7 ∷ []) ≡ 81985529216486895
long_value = refl
