-- ===== src/Common/Outcome.antt =====
-- What a C++ function of the program can do besides return: `VERIFY` and `throw` raise
-- `gitstatus::Exception`, `CHECK` logs and aborts, `std::exit` ends the process (src/check.h).
use mathlib.Core.Path.{subst}
use gitstatus.Common.{ℕ, ◌≡◌, refl, Bool, true, false}

pub data Outcome {ℓ} (A : Type ℓ) : Type ℓ where
  ok : A → Outcome A
  throws : Outcome A
  aborts : Outcome A
  exits : ℕ → Outcome A

infixl 5 ◌>>=◌
abbrev pub ◌>>=◌ {ℓ κ} : {A : Type ℓ} {B : Type κ} → Outcome A → (A → Outcome B) → Outcome B
ok a >>= f = f a
throws >>= f = throws
aborts >>= f = aborts
exits n >>= f = exits n

infixl 5 ◌>>◌
abbrev pub ◌>>◌ {ℓ} : {B : Type ℓ} → Outcome (Unit {0}) → Outcome B → Outcome B
m >> k = m >>= λ _. k

abbrev pub verify : Bool → Outcome (Unit {0})
verify true = ok tt
verify false = throws

abbrev pub check : Bool → Outcome (Unit {0})
check true = ok tt
check false = aborts

-- If the function returns, its result satisfies P.
pub data Ensures {ℓ κ} {A : Type ℓ} (P : A → Type κ) : Outcome A → Type (ℓ ⊔ κ) where
  on_ok : {a : A} → P a → Ensures P (ok a)
  on_throws : Ensures P throws
  on_aborts : Ensures P aborts
  on_exits : {n : ℕ} → Ensures P (exits n)

pub >>=-Ensures {ℓ κ μ} :
    {A : Type ℓ} {B : Type κ} (P : B → Type μ) (m : Outcome A) (f : A → Outcome B)
    → ((a : A) → Ensures P (f a))
    → Ensures P (m >>= f)
>>=-Ensures P (ok a) f h = h a
>>=-Ensures P throws f h = on_throws
>>=-Ensures P aborts f h = on_aborts
>>=-Ensures P (exits n) f h = on_exits

-- The rule for a bind whose continuation needs to know what the first part returned.
pub >>=-Ensures_eq {ℓ κ μ} :
    {A : Type ℓ} {B : Type κ} (P : B → Type μ) (m : Outcome A) (f : A → Outcome B)
    → ((a : A) → m ≡ ok a → Ensures P (f a))
    → Ensures P (m >>= f)
>>=-Ensures_eq P (ok a) f h = h a refl
>>=-Ensures_eq P throws f h = on_throws
>>=-Ensures_eq P aborts f h = on_aborts
>>=-Ensures_eq P (exits n) f h = on_exits

pub Ensures-ok {ℓ κ} :
    {A : Type ℓ} (P : A → Type κ) (m : Outcome A) {a : A} → Ensures P m → m ≡ ok a → P a
Ensures-ok P (ok b) (on_ok p) e = subst P (cc) p
Ensures-ok P throws h e = cc
Ensures-ok P aborts h e = cc
Ensures-ok P (exits n) h e = cc
