-- ===== src/Prelude/Results.antt =====
-- A call that may raise: its value, or the exception.
use Prim.Native.Nat.{ℕ}
use mathlib.Core.Path.{◌≡◌, refl}
use mathlib.Core.Logic.{◌⊎◌, inl, inr}
use mathlib.Core.Bool.{Bool, true, false}
use gr_ccsds.Prelude.Tests.{if◌then◌else◌}
use mathlib.Core.Option.{Option, none, some}

-- The exceptions that the source raises or lets through, by class.
pub data Exception : Type 0 where
  value_error key_error index_error type_error attribute_error name_error : Exception
  struct_error keyboard_interrupt assertion_error runtime_error : Exception
  -- sys.exit(n)
  system_exit : ℕ → Exception

pub data Result {ℓ} (A : Type ℓ) : Type ℓ where
  ok : A → Result A
  err : Exception → Result A

infixl 5 ◌>>=◌
abbrev pub ◌>>=◌ {ℓ κ} : {A : Type ℓ} {B : Type κ} → Result A → (A → Result B) → Result B
ok a >>= f = f a
err e >>= f = err e

abbrev pub or_raise {ℓ} : {A : Type ℓ} → Exception → Option A → Result A
or_raise e none = err e
or_raise e (some a) = ok a

pub Result-cases {ℓ} :
    {A : Type ℓ} (r : Result A) → ((a : A) × (r ≡ ok a)) ⊎ ((e : Exception) × (r ≡ err e))
Result-cases (ok a) = inl (a, refl)
Result-cases (err e) = inr (e, refl)

infixl 5 ◌>>◌
abbrev pub ◌>>◌ {ℓ} : {B : Type ℓ} → Result (Unit {0}) → Result B → Result B
m >> k = m >>= λ _. k

abbrev pub refuse_if : Bool → Exception → Result (Unit {0})
refuse_if true e = err e
refuse_if false e = ok tt

-- The two parts of a chain that returned.
pub >>=-eq-ok {ℓ κ} :
    {A : Type ℓ} {B : Type κ} (call : Result A) (next : A → Result B) {last : B}
    → (call >>= next) ≡ ok last
    → (first : A) × (call ≡ ok first) × (next first ≡ ok last)
>>=-eq-ok (err raised) next returned = cc
>>=-eq-ok (ok first) next returned = (first, refl, returned)

pub refused_last : (b : Bool) (e : Exception) → refuse_if b e ≡ ok tt → b ≡ false
refused_last true e h = cc
refused_last false e h = refl

pub >>-eq-ok {ℓ} :
    {B : Type ℓ} (m : Result (Unit {0})) (k : Result B) {b : B}
    → (m >> k) ≡ ok b
    → (m ≡ ok tt) × (k ≡ ok b)
>>-eq-ok (ok tt) k h = (refl, h)
>>-eq-ok (err e) k h = cc

pub ok-injective {ℓ} : {A : Type ℓ} {x y : A} → Result.ok x ≡ ok y → x ≡ y
ok-injective p = cc

-- A guarded call that returned.
pub guarded-eq-ok {ℓ} :
    {A : Type ℓ} (b : Bool) (e : Exception) (x : A) {y : A}
    → (if b then err e else ok x) ≡ ok y
    → (b ≡ false) × (x ≡ y)
guarded-eq-ok true e x h = cc
guarded-eq-ok false e x h = (refl, ok-injective h)

-- The two ways in which a choice between calls returns.
pub if-eq-intro {ℓ κ} :
    {A : Type ℓ} (P : A → Type κ) (b : Bool) (m n : Result A) (r : A)
    → (if b then m else n) ≡ ok r
    → ((b ≡ true) → m ≡ ok r → P r)
    → ((b ≡ false) → n ≡ ok r → P r)
    → P r
if-eq-intro P true m n r e f g = f refl e
if-eq-intro P false m n r e f g = g refl e

-- The call returns.
abbrev pub Returns {ℓ} : {A : Type ℓ} → Result A → Type ℓ
Returns {A} m = (a : A) × (m ≡ ok a)

pub Returns->>= {ℓ κ} :
    {A : Type ℓ} {B : Type κ} (m : Result A) (f : A → Result B)
    → Returns m
    → ((a : A) → m ≡ ok a → Returns (f a))
    → Returns (m >>= f)
Returns->>= (err e) f (a, same) next = cc
Returns->>= (ok a) f returned next = next a refl

pub Returns-if {ℓ} :
    {A : Type ℓ} (b : Bool) (m n : Result A)
    → ((b ≡ true) → Returns m)
    → ((b ≡ false) → Returns n)
    → Returns (if b then m else n)
Returns-if true m n hm hn = hm refl
Returns-if false m n hm hn = hn refl
