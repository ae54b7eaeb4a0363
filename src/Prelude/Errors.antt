-- ===== src/Prelude/Errors.antt =====
-- The return convention of the C modules: 0, or -1 with `errno` set.
use mathlib.Core.Path.{◌≡◌, refl}
use mathlib.Core.Logic.{◌⊎◌, inl, inr}
use mathlib.Core.Bool.{Bool, true, false}

-- The values of `errno` that the modelled code sets.
pub data Errno : Type 0 where
  einval enospc eio enoent enomem ehostunreach eperm ebadmsg erange eexist ealready : Errno
  emsgsize eoverflow enotuniq estale eacces enodata eloop : Errno

pub data Result {ℓ} (A : Type ℓ) : Type ℓ where
  ok : A → Result A
  err : Errno → Result A

-- A call whose failure is passed on: `if (f() < 0) return -1;`
infixl 5 ◌>>=◌ ◌>>◌
abbrev pub ◌>>=◌ {κ ℓ} : {B : Type κ} {A : Type ℓ} → Result A → (A → Result B) → Result B
err error >>= next = err error
ok value >>= next = next value

abbrev pub ◌>>◌ {ℓ} : {B : Type ℓ} → Result (Unit {0}) → Result B → Result B
err error >> next = err error
ok done >> next = next

-- `if (!test) { errno = e; return -1; }`
abbrev pub require : Bool → Errno → Result (Unit {0})
require false error = err error
require true error = ok tt

-- Inversion of a call that succeeded and of what came after it.
pub >>=-eq-ok {κ ℓ} :
    {B : Type κ} {A : Type ℓ} (call : Result A) (next : A → Result B) {final : B}
    → call >>= next ≡ ok final
    → (value : A) × (call ≡ ok value) × (next value ≡ ok final)
>>=-eq-ok (err error) next h = cc
>>=-eq-ok (ok value) next h = (value, refl, h)

-- Inversion of a passed guard.
pub require-ok {ℓ} :
    {B : Type ℓ} (test : Bool) (e : Errno) (m : Result B) {b : B}
    → (require test e >> m) ≡ ok b
    → (test ≡ true) × (m ≡ ok b)
require-ok true e m h = (refl, h)
require-ok false e m h = cc

pub ok-injective {ℓ} : {A : Type ℓ} {a b : A} → ok a ≡ ok b → a ≡ b
ok-injective h = cc

pub Result-cases {ℓ} :
    {A : Type ℓ} (r : Result A) → ((e : Errno) × (r ≡ err e)) ⊎ ((a : A) × (r ≡ ok a))
Result-cases (err e) = inl (e, refl)
Result-cases (ok a) = inr (a, refl)
