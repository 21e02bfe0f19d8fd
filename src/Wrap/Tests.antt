-- ===== src/Wrap/Tests.antt =====
-- Runs of src/wrapping_integers.cc, and the theorems at them.
use networkinglab.Base.{◌+◌, ◌*◌, ◌-◌, ◌^◌, ◌≤◌, ◌≡◌, refl, arith, add32, sub32, add64, sub64, true}
use networkinglab.Wrap.{plus, equals, wrap, unwrap}
use networkinglab.Wrap.Laws.{dist, wrap-unwrap, unwrap-nearest, unwrap-wrap}

wraps_round : wrap (3 * 2 ^ 32 + 17) 15 ≡ 32
unfolding wrap plus add32
wraps_round = refl

unwraps_back : unwrap (2 ^ 32 - 1) 0 (2 ^ 32 * 7) ≡ 2 ^ 32 * 7 - 1
unfolding unwrap wrap plus add32 sub32 add64 sub64
unwraps_back = refl

never_below_zero : unwrap (2 ^ 32 - 1) 0 0 ≡ 2 ^ 32 - 1
unfolding unwrap wrap plus add32 sub32 add64 sub64
never_below_zero = refl

equal_to_itself : equals 7 7 ≡ true
unfolding equals
equal_to_itself = refl

wrap-unwrap_example : wrap (unwrap 5 10 1000) 10 ≡ 5
wrap-unwrap_example = wrap-unwrap 5 10 1000 (omega arith) (omega arith) (omega arith)

other_hit : wrap (2 ^ 33 - 5) 10 ≡ 5
unfolding wrap plus add32
other_hit = refl

unwrap-nearest_example : dist (unwrap 5 10 1000) 1000 ≤ dist (2 ^ 33 - 5) 1000
unwrap-nearest_example =
    unwrap-nearest 5 10 1000 (omega arith) (omega arith) (omega arith) (2 ^ 33 - 5) other_hit

unwrap-wrap_example : unwrap (wrap (2 ^ 32 + 9) (2 ^ 32 - 1)) (2 ^ 32 - 1) (2 ^ 32) ≡ 2 ^ 32 + 9
unwrap-wrap_example =
    unwrap-wrap (2 ^ 32 + 9) (2 ^ 32 - 1) (2 ^ 32) (omega arith) (omega arith) (omega arith)
