-- ===== src/Prelude/Throws.antt =====
-- A call that returns or throws.
use mathlib.Core.Path.{◌≡◌, refl, ap, ◌∙◌}
use mathlib.Core.Bool.{Bool, true, false}
use mathlib.Core.Option.{Option, none, some}
use mathlib.Core.List.{List, [], ◌∷◌}

pub data Result (E A : Type 0) : Type 0 where
  ok : A → Result E A
  err : E → Result E A

module _ {E : Type 0} where
  -- `if (test) throw e;`
  abbrev pub throw_if : Bool → E → Result E (Unit {0})
  throw_if true e = err e
  throw_if false e = ok tt

module _ {E A : Type 0} where
  -- The value that is there, or a throw.
  abbrev pub or_throw : Option A → E → Result E A
  or_throw none e = err e
  or_throw (some a) e = ok a

-- One call after another: `do` binds what the first returns, and a throw passes through.
infixl 5 ◌>>=◌ ◌>>◌
abbrev pub ◌>>=◌ : {E A B : Type 0} → Result E A → (A → Result E B) → Result E B
err thrown >>= next = err thrown
ok value >>= next = next value

abbrev pub ◌>>◌ : {E A : Type 0} → Result E (Unit {0}) → Result E A → Result E A
first >> second = first >>= λ done. second

module _ {E A B : Type 0} where
  -- A loop over a list that stops at the first throw.
  abbrev pub map_result : (A → Result E B) → List A → Result E (List B)
  map_result f [] = ok []
  map_result f (x ∷ xs) = do y ← f x; ys ← map_result f xs; ok (y ∷ ys)

  -- What a bind that returned did.
  pub >>=-returned :
      (call : Result E A) (next : A → Result E B) {result : B}
      → (call >>= next) ≡ ok result
      → (x : A) × (call ≡ ok x) × (next x ≡ ok result)
  >>=-returned (err thrown) next h = cc
  >>=-returned (ok x) next h = (x, refl, h)

-- A call that returns, and what follows it.
pub >>=-ok :
    {E A B : Type 0} (call : Result E A) (next : A → Result E B) {x : A} {result : Result E B}
    → call ≡ ok x
    → next x ≡ result
    → (call >>= next) ≡ result
>>=-ok call next h k = ap (λ c. c >>= next) h ∙ k

pub or_throw-ok : {E A : Type 0} (o : Option A) (e : E) {a : A} → or_throw o e ≡ ok a → o ≡ some a
or_throw-ok none e h = cc
or_throw-ok (some x) e h = cc

pub throw_if-ok :
    {E : Type 0} (test : Bool) (e : E) {u : Unit {0}} → throw_if test e ≡ ok u → test ≡ false
throw_if-ok true e h = cc
throw_if-ok false e h = refl

module _ {E A B : Type 0} where
  -- A function of what a call returns.
  abbrev pub map_ok : (A → B) → Result E A → Result E B
  map_ok f (err thrown) = err thrown
  map_ok f (ok a) = ok (f a)

  pub map_ok-ok :
      (f : A → B) (call : Result E A) {y : B}
      → map_ok f call ≡ ok y
      → (x : A) × (call ≡ ok x) × (f x ≡ y)
  map_ok-ok f (err thrown) h = cc
  map_ok-ok f (ok a) h = (a, refl, cc)

pub ok-injective : {E A : Type 0} {x y : A} → ◌≡◌ {A = Result E A} (ok x) (ok y) → x ≡ y
ok-injective h = cc
