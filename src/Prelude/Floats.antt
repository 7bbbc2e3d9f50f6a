-- ===== src/Prelude/Floats.antt =====
-- What the code relies on of Python's floats, as an interface: the scores of the verification
-- lanes are the floats that are not NaN. A value of it shows that its laws can be met.
use Prim.Native.Nat.{ℕ, ◌+◌, ◌-◌, ◌*◌, ◌/◌, ◌<◌, ◌≤◌, compare, Ordering}
use mathlib.Core.Path.{◌≡◌, refl}
use mathlib.Core.Bool.{Bool, true, false}
use mathlib.Core.List.{List, [], ◌∷◌}
use native.Mathlib.Omega.{arith}
use native.Mathlib.Nat.{div-le_of_le-mul}
use gddp_runtime.Prelude.Lists.{length, All}

-- `lt b a ≡ false` reads "a ≤ b". `half` and `nine_tenths` are the literals 0.5 and 0.9, `of_len`
-- the float of a list's length, and `div x n` is `x / n` for such a length.
pub record FloatOps (F : Type 0) : Type 0 where
  pub lt : F → F → Bool
  pub zero_f : F
  pub half : F
  pub nine_tenths : F
  pub one : F
  pub sum : List F → F
  pub of_len : ℕ → F
  pub div : F → ℕ → F
  pub sub : F → F → F
  pub le_refl : (a : F) → lt a a ≡ false
  pub le_trans : (a b c : F) → lt b a ≡ false → lt c b ≡ false → lt c a ≡ false
  pub half_pos : lt half zero_f ≡ false
  pub half_le_one : lt one half ≡ false
  pub one_gt_nine_tenths : lt nine_tenths one ≡ true
  pub half_le_nine_tenths : lt nine_tenths half ≡ false
  pub sum-nonneg : (xs : List F) → All (λ x. lt x zero_f ≡ false) xs → lt (sum xs) zero_f ≡ false
  pub sum-le-of_len :
      (xs : List F) → All (λ x. lt one x ≡ false) xs → lt (of_len (length xs)) (sum xs) ≡ false
  pub div-nonneg : (x : F) (n : ℕ) → 0 < n → lt x zero_f ≡ false → lt (div x n) zero_f ≡ false
  pub div-le-one : (x : F) (n : ℕ) → 0 < n → lt (of_len n) x ≡ false → lt one (div x n) ≡ false
  pub sub-nonneg : (x : F) → lt one x ≡ false → lt (sub one x) zero_f ≡ false
  pub sub-le-one : (x : F) → lt x zero_f ≡ false → lt one (sub one x) ≡ false

module _ {F : Type 0} ⦃fl : FloatOps F⦄ where
  -- `0.0 <= x <= 1.0`
  abbrev pub InUnit : F → Type 0
  InUnit x = (fl.lt x fl.zero_f ≡ false) × (fl.lt fl.one x ≡ false)

  abbrev pick : Bool → F → F → F
  pick true a b = b
  pick false a b = a

  -- Python's `min(a, b)`: `b` where `b < a`, else `a`.
  unfoldable pub min_f : F → F → F
  min_f a b = pick (fl.lt b a) a b

  pick-InUnit : (c : Bool) (a b : F) → InUnit a → InUnit b → InUnit (pick c a b)
  pick-InUnit true a b ha hb = hb
  pick-InUnit false a b ha hb = ha

  pub min_f-InUnit : (a b : F) → InUnit a → InUnit b → InUnit (min_f a b)
  unfolding min_f
  min_f-InUnit a b ha hb = pick-InUnit (fl.lt b a) a b ha hb

  pub sub-one-InUnit : (x : F) → InUnit x → InUnit (fl.sub fl.one x)
  sub-one-InUnit x h = (fl.sub-nonneg x h.1, fl.sub-le-one x h.0)

module _ {F : Type 0} (fl : FloatOps F) where
  pub zero_f-InUnit : InUnit ⦃fl = fl⦄ fl.zero_f
  zero_f-InUnit = (fl.le_refl fl.zero_f, fl.le_trans _ _ _ fl.half_pos fl.half_le_one)

  pub one-InUnit : InUnit ⦃fl = fl⦄ fl.one
  one-InUnit = (fl.le_trans _ _ _ fl.half_pos fl.half_le_one, fl.le_refl fl.one)

  pub half-InUnit : InUnit ⦃fl = fl⦄ fl.half
  half-InUnit = (fl.half_pos, fl.half_le_one)

-- Percentages: a model of the interface, for examples.
abbrev less : ℕ → ℕ → Bool
less a b = elim (compare a b) [ Ordering.lt ↦ true | _ ↦ false ]

less→le : {a b : ℕ} → less b a ≡ false → a ≤ b
less→le h = ground arith

le→less : {a b : ℕ} → a ≤ b → less b a ≡ false
le→less h = ground arith

abbrev total : List ℕ → ℕ
total [] = 0
total (x ∷ xs) = x + total xs

pub total-le :
    (xs : List ℕ) → All (λ x. less 100 x ≡ false) xs → less (length xs * 100) (total xs) ≡ false
total-le [] h = refl
total-le (x ∷ xs) h = ground (arith, total-le xs h.1)

pub pct_div-le : (x n : ℕ) → 0 < n → less (n * 100) x ≡ false → less 100 (x / n) ≡ false
pct_div-le x n p h = le→less (div-le_of_le-mul n (grind (arith, less→le h)))

pub less_refl : (a : ℕ) → less a a ≡ false
less_refl a = ground arith

pub less_trans : (a b c : ℕ) → less b a ≡ false → less c b ≡ false → less c a ≡ false
less_trans a b c p q = ground arith

pub less-zero : (x : ℕ) → less x 0 ≡ false
less-zero x = ground arith

pub less-100_sub : (x : ℕ) → less 100 (100 - x) ≡ false
less-100_sub x = ground arith

instance abbrev pub percent : FloatOps ℕ
percent = record {
  lt = less;
  zero_f = 0;
  half = 50;
  nine_tenths = 90;
  one = 100;
  sum = total;
  of_len = λ n. n * 100;
  div = λ x n. x / n;
  sub = λ a b. a - b;
  le_refl = less_refl;
  le_trans = less_trans;
  half_pos = refl;
  half_le_one = refl;
  one_gt_nine_tenths = refl;
  half_le_nine_tenths = refl;
  sum-nonneg = λ xs h. less-zero (total xs);
  sum-le-of_len = total-le;
  div-nonneg = λ x n p h. less-zero (x / n);
  div-le-one = pct_div-le;
  sub-nonneg = λ x h. less-zero (100 - x);
  sub-le-one = λ x h. less-100_sub x;
}
