-- ===== src/EqualityUtils.antt =====
-- BromiumCoreUtils/BRUEqualityUtils.h: comparisons of Booleans and of floating-point numbers.
-- `Precision` is what they use of IEEE 754, for float or for double: a difference of a finite number
-- with itself is zero, of other numbers with themselves NaN; exchanging the operands changes at most
-- its sign; comparisons with NaN are false, and the order of the others is transitive.
pub mod Comparisons
pub mod Delays
mod Examples
use bromium_core_utils.Prelude.{◌≡◌, Bool, true, false, not, ◌&&◌, ◌||◌}

pub record Precision : Type 1 where
  pub Float : Type 0
  pub zero : Float
  pub sub : Float → Float → Float
  pub fabs : Float → Float
  pub lt : Float → Float → Bool
  pub is_finite : Float → Bool
  pub is_nan : Float → Bool
  pub sub_finite : (x : Float) → is_finite x ≡ true → fabs (sub x x) ≡ zero
  pub sub_not_finite : (x : Float) → is_finite x ≡ false → is_nan (fabs (sub x x)) ≡ true
  pub sub_nan : (x y : Float) → is_nan x ≡ true → is_nan (fabs (sub x y)) ≡ true
  pub sub_swap : (x y : Float) → fabs (sub x y) ≡ fabs (sub y x)
  pub lt_nan : (x y : Float) → is_nan x ≡ true → lt x y ≡ false
  pub lt_trans : (x y z : Float) → lt x y ≡ true → lt y z ≡ true → lt x z ≡ true

-- `BRUBoolIsEqualToBool`.
unfoldable pub bool_is_equal_to_bool : Bool → Bool → Bool
bool_is_equal_to_bool b1 b2 = b1 && b2 || not b1 && not b2

-- `BRUFloatEquals`, with the precision of float.
unfoldable pub float_equals : (F : Precision) (x y epsilon : F.Float) → Bool
float_equals F x y epsilon = F.lt (F.fabs (F.sub x y)) epsilon

-- `BRUDoubleEquals`, with the precision of double.
unfoldable pub double_equals : (D : Precision) (x y epsilon : D.Float) → Bool
double_equals D x y epsilon = D.lt (D.fabs (D.sub x y)) epsilon

-- `BRUTimeIntervalEquals`, with DBL_EPSILON.
unfoldable pub time_interval_equals : (D : Precision) (dbl_epsilon x y : D.Float) → Bool
unfolding double_equals
time_interval_equals D dbl_epsilon x y = double_equals D x y dbl_epsilon
