-- ===== src/Big/Laws.antt =====
-- The integer of a `Big`, through which the other components' sums are stated, and the methods of
-- currency/big.go in terms of it.
use Prim.Native.Nat.{Ordering}
use mitum_currency.Prelude.{◌≡◌, true, false, ok, arith}
use mitum_currency.Prelude.Int.{ℤ, pos, ◌+ℤ◌, ◌-ℤ◌, ◌≤ℤ◌}
use mitum_currency.Big.{Big, nil, int, over_zero, over_nil, compare_big, is_lt, add, sub}

-- Zero for a nil pointer.
abbrev pub val : Big → ℤ
val nil = pos 0
val (int a) = a

pub add-val : (a b : Big) {c : Big} → add a b ≡ ok c → val c ≡ val a +ℤ val b
unfolding add
add-val (int a) (int b) e = ground arith
add-val (int a) nil e = cc
add-val nil b e = cc

pub sub-val : (a b : Big) {c : Big} → sub a b ≡ ok c → val c ≡ val a -ℤ val b
unfolding sub
sub-val (int a) (int b) e = ground arith
sub-val (int a) nil e = cc
sub-val nil b e = cc

pub over_zero-val : (a : Big) → over_zero a ≡ true → pos 1 ≤ℤ val a
unfolding over_zero
over_zero-val nil e = cc
over_zero-val (int a) e = ground arith

pub over_nil-val : (a : Big) → over_nil a ≡ true → pos 0 ≤ℤ val a
unfolding over_nil
over_nil-val nil e = cc
over_nil-val (int a) e = ground arith

-- What `am.Big().Compare(rq[0]) < 0` lets pass.
pub compare_big-ge :
    (a b : Big) {o : Ordering} → compare_big a b ≡ ok o → is_lt o ≡ false → val b ≤ℤ val a
unfolding compare_big
compare_big-ge nil b e h = ground arith
compare_big-ge (int a) nil e h = cc
compare_big-ge (int a) (int b) e h = ground arith
