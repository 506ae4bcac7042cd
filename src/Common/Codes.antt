-- ===== src/Common/Codes.antt =====
-- The error numbers that the sources return, and what a C function returning 0 or `-errno` returns.
use mathlib.Core.Path.{◌≡◌, refl}
use mathlib.Core.Logic.{◌⊎◌, inl, inr}

pub data Errno : Type 0 where
  eperm eagain ebusy eexist enodev einval enotty enomem efault enotsupp : Errno
  ebadf ebadfd ealready einprogress etimedout enobufs : Errno

pub data Status : Type 0 where
  ok : Status
  err : Errno → Status

pub Status-cases : (s : Status) → (s ≡ ok) ⊎ ((e : Errno) × (s ≡ err e))
Status-cases ok = inl refl
Status-cases (err e) = inr (e, refl)
