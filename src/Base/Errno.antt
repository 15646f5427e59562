-- ===== src/Base/Errno.antt =====
-- The error numbers that the driver returns, with Linux's values (asm-generic/errno-base.h, errno.h).
use bdus.Base.Int.{ℤ, neg}
use mathlib.Core.Path.{◌≡◌, refl}
use mathlib.Core.Logic.{◌⊎◌, inl, inr}

abbrev pub eperm : ℤ
eperm = neg 1

abbrev pub eio : ℤ
eio = neg 5

abbrev pub enomem : ℤ
enomem = neg 12

abbrev pub efault : ℤ
efault = neg 14

abbrev pub enodev : ℤ
enodev = neg 19

abbrev pub einval : ℤ
einval = neg 22

abbrev pub enotty : ℤ
enotty = neg 25

abbrev pub enospc : ℤ
enospc = neg 28

abbrev pub enosys : ℤ
enosys = neg 38

abbrev pub enolink : ℤ
enolink = neg 67

abbrev pub eopnotsupp : ℤ
eopnotsupp = neg 95

abbrev pub etimedout : ℤ
etimedout = neg 110

abbrev pub ebusy : ℤ
ebusy = neg 16

abbrev pub einprogress : ℤ
einprogress = neg 115

-- ERESTARTSYS is the kernel's own (linux/errno.h).
abbrev pub erestartsys : ℤ
erestartsys = neg 512

-- A function that returns a pointer or `ERR_PTR(e)`, or a value through a pointer and an error.
pub data Result {ℓ} (A : Type ℓ) : Type ℓ where
  ok : A → Result A
  err : ℤ → Result A

abbrev pub echild : ℤ
echild = neg 10

abbrev pub enotblk : ℤ
enotblk = neg 15

-- To split on a computed result and keep the equation.
pub Result-cases {ℓ} :
    {A : Type ℓ} (r : Result A) → ((a : A) × (r ≡ ok a)) ⊎ ((e : ℤ) × (r ≡ err e))
Result-cases (ok a) = inl (a, refl)
Result-cases (err e) = inr (e, refl)
