-- ===== src/Common/Results.antt =====
-- A result, or the error in its place; `do` chains them.
use mathlib.Core.Bool.{Bool, true, false}
use mathlib.Core.Logic.{◌⊎◌, inl, inr}
use mathlib.Core.Path.{◌≡◌, refl}

pub data Result (E A : Type 0) : Type 0 where
  err : E → Result E A
  ok : A → Result E A

-- The first error ends a chain.
abbrev pub then_with : {E A B : Type 0} → (A → Result E B) → Result E A → Result E B
then_with next (err failure) = err failure
then_with next (ok value) = next value

abbrev pub ◌>>=◌ : {E A B : Type 0} → Result E A → (A → Result E B) → Result E B
first >>= next = then_with next first

abbrev pub ◌>>◌ : {E B : Type 0} → Result E (Unit {0}) → Result E B → Result E B
first >> second = then_with (λ done. second) first

infixl 5 ◌>>=◌ ◌>>◌
-- Fails where the test holds.
abbrev pub fail_if : {E : Type 0} → Bool → E → Result E (Unit {0})
fail_if true failure = err failure
fail_if false failure = ok tt

pub ok_inj : {E A : Type 0} {x y : A} → ◌≡◌ {A = Result E A} (ok x) (ok y) → x ≡ y
ok_inj same = cc

pub Result-cases :
    {E A : Type 0} (result : Result E A)
    → ((x : A) × (result ≡ ok x)) ⊎ ((e : E) × (result ≡ err e))
Result-cases (err failure) = inr (failure, refl)
Result-cases (ok value) = inl (value, refl)

-- A chain that succeeds: so did its first part, and then the rest.
pub >>=-eq-ok :
    {E A B : Type 0} (first : Result E A) (next : A → Result E B) {out : B}
    → (first >>= next) ≡ ok out
    → (value : A) × (first ≡ ok value) × (next value ≡ ok out)
>>=-eq-ok (err failure) next same = absurd (cc)
>>=-eq-ok (ok value) next same = (value, refl, same)

pub fail_if-eq-ok :
    {E : Type 0} (test : Bool) (failure : E) → fail_if test failure ≡ ok tt → test ≡ false
fail_if-eq-ok true failure same = absurd (cc)
fail_if-eq-ok false failure same = refl
