-- ===== src/Prelude/Result.antt =====
-- Rust's `Result<T, E>` and its `?` operator.
use mathlib.Core.Path.{◌≡◌, refl, ap}
use mathlib.Core.Logic.{◌⊎◌, inl, inr}
use mathlib.Core.Option.{Option, none, some}
use mathlib.Core.List.{List, [], ◌∷◌}
use mathlib.Core.Bool.{Bool, true, false}

pub data Result (A E : Type 0) : Type 0 where
  ok : (value : A) → Result A E
  err : (failure : E) → Result A E

-- `let x = m?;` and `m?;` before the rest of a function
abbrev pub ◌>>=◌ : {T U E : Type 0} → Result T E → (T → Result U E) → Result U E
ok value >>= rest = rest value
err failure >>= rest = err failure

abbrev pub ◌>>◌ : {U E : Type 0} → Result (Unit {0}) E → Result U E → Result U E
ok _ >> rest = rest
err failure >> rest = err failure

infixl 5 ◌>>=◌ ◌>>◌
-- `if !test { return Err(e) }`
abbrev pub ensure : {E : Type 0} → Bool → E → Result (Unit {0}) E
ensure true e = ok tt
ensure false e = err e

abbrev pub ok_or : {A E : Type 0} → Option A → E → Result A E
ok_or none e = err e
ok_or (some a) e = ok a

abbrev pub map_err : {A E F : Type 0} → (E → F) → Result A E → Result A F
map_err f (ok a) = ok a
map_err f (err e) = err (f e)

abbrev pub map_ok : {A B E : Type 0} → (A → B) → Result A E → Result B E
map_ok f (ok a) = ok (f a)
map_ok f (err e) = err e

-- `.collect::<Result<Vec<_>, _>>()` over a mapped iterator: the first error ends it
abbrev pub collect : {A B E : Type 0} → (A → Result B E) → List A → Result (List B) E
collect f [] = ok []
collect f (x ∷ xs) = do y ← f x; ys ← collect f xs; ok (y ∷ ys)

-- What `?` went on with, when the whole succeeded.
pub >>=-eq-ok :
    {T U E : Type 0} (m : Result T E) (rest : T → Result U E) {u : U}
    → (m >>= rest) ≡ ok u
    → (value : T) × (m ≡ ok value) × (rest value ≡ ok u)
>>=-eq-ok (err failure) rest done = cc
>>=-eq-ok (ok value) rest done = (value, refl, done)

-- To split on a computed result and keep the equation.
pub Result-cases :
    {A E : Type 0} (r : Result A E) → ((a : A) × (r ≡ ok a)) ⊎ ((e : E) × (r ≡ err e))
Result-cases (ok a) = inl (a, refl)
Result-cases (err e) = inr (e, refl)

pub ensure-eq-ok :
    {A E : Type 0} (test : Bool) (e : E) (m : Result A E) {b : A}
    → (ensure test e >> m) ≡ ok b
    → (test ≡ true) × (m ≡ ok b)
ensure-eq-ok true e m h = (refl, h)
ensure-eq-ok false e m h = cc

pub >>-eq-ok :
    {A E : Type 0} (test : Result (Unit {0}) E) (m : Result A E) {b : A}
    → (test >> m) ≡ ok b
    → (test ≡ ok tt) × (m ≡ ok b)
>>-eq-ok (ok tt) m h = (refl, h)
>>-eq-ok (err e) m h = cc

pub ok_or-eq-ok : {A E : Type 0} (o : Option A) (e : E) {a : A} → ok_or o e ≡ ok a → o ≡ some a
ok_or-eq-ok none e h = cc
ok_or-eq-ok (some x) e h = cc

pub ok_inj : {A E : Type 0} {a b : A} → ◌≡◌ {A = Result A E} (ok a) (ok b) → a ≡ b
ok_inj {a = a} e = ap (elim [ ok x ↦ x | err _ ↦ a ]) e

pub map_ok-eq-ok :
    {A B E : Type 0} (f : A → B) (m : Result A E) {b : B}
    → map_ok f m ≡ ok b
    → (a : A) × (m ≡ ok a) × (f a ≡ b)
map_ok-eq-ok f (ok a) h = (a, refl, ok_inj h)
map_ok-eq-ok f (err e) h = cc

pub err_inj : {A E : Type 0} {a b : E} → ◌≡◌ {A = Result A E} (err a) (err b) → a ≡ b
err_inj {a = a} e = ap (elim [ ok _ ↦ a | err x ↦ x ]) e
