-- ===== src/Prelude/Results.antt =====
-- What a Python call ends with: a value, or the exception that it raised.
use mathlib.Core.Path.{◌≡◌, refl}
use mathlib.Core.Logic.{◌⊎◌, inl, inr}

pub data Result (E A : Type 0) : Type 0 where
  err : (raised : E) → Result E A
  ok : (returned : A) → Result E A

-- The next call is made with the value; an exception goes on to the caller.
infixl 5 ◌>>=◌
abbrev pub ◌>>=◌ : {E A B : Type 0} → Result E A → (A → Result E B) → Result E B
call >>= next = elim call [ err raised ↦ err raised | ok returned ↦ next returned ]

-- A sequence of two calls that returns: the first returned a value, and the second returned on it.
pub >>=-eq-ok :
    {E A B : Type 0} (call : Result E A) (next : A → Result E B) {b : B}
    → (call >>= next) ≡ ok b
    → (a : A) × (call ≡ ok a) × (next a ≡ ok b)
>>=-eq-ok (err raised) next h = cc
>>=-eq-ok (ok returned) next h = (returned, refl, h)

pub Result-cases :
    {E A : Type 0} (v : Result E A) → ((e : E) × (v ≡ err e)) ⊎ ((a : A) × (v ≡ ok a))
Result-cases (err e) = inl (e, refl)
Result-cases (ok a) = inr (a, refl)
