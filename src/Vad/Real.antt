-- ===== src/Vad/Real.antt =====
-- The floating-point operations that the sources use. They are the machine's, and enter as a record;
-- no law of them is assumed.
use xarlatan.Common.{ℕ, ◌+◌, ◌-◌, ◌*◌, ◌/◌, ◌^◌, Bool, List, [], ◌∷◌, ltb, leb, length}

pub record Real (F : Type 0) : Type 0 where
  pub zero : F
  -- `decimal n k` is the literal n / 10^k.
  pub decimal : ℕ → ℕ → F
  pub of_ℕ : ℕ → F
  pub add : F → F → F
  pub sub : F → F → F
  pub mul : F → F → F
  pub div : F → F → F
  pub sqrt : F → F
  pub lt : F → F → Bool
  pub le : F → F → Bool
  -- `int(x)`
  pub truncate : F → ℕ
  -- `time.Duration.Seconds`, of a number of nanoseconds
  pub seconds : ℕ → F

-- Thousandths, cut off: an arithmetic to run the models in.
abbrev pub milli : Real ℕ
milli = record {
  zero = 0;
  decimal = λ n k. (n * 1000) / 10 ^ k;
  of_ℕ = λ n. n * 1000;
  add = λ a b. a + b;
  sub = λ a b. a - b;
  mul = λ a b. (a * b) / 1000;
  div = λ a b. (a * 1000) / b;
  sqrt = λ a. a;
  lt = ltb;
  le = leb;
  truncate = λ a. a / 1000;
  seconds = λ n. n / 1000000;
}

-- The sum of squares in `rms`, `rmsFloat32` and `chunkRMS`.
unfoldable pub sum_squares : {F : Type 0} → Real F → F → List F → F
sum_squares o acc [] = acc
sum_squares o acc (s ∷ ss) = sum_squares o (o.add acc (o.mul s s)) ss

unfoldable pub rms : {F : Type 0} → Real F → List F → F
unfolding sum_squares
rms o [] = o.zero
rms o (s ∷ ss) = o.sqrt (o.div (sum_squares o o.zero (s ∷ ss)) (o.of_ℕ (length (s ∷ ss))))
