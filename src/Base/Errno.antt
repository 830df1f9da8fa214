-- ===== src/Base/Errno.antt =====
-- include/northstar/errno.h: the error numbers that the modelled code returns, each as the negative
-- `int` that a function returns for it. `negsuc n` is -(n + 1).
use Prim.Native.Nat.{ℕ}

-- A C `int` or `int64_t` result.
pub data ℤ : Type 0 where
  pos : ℕ → ℤ
  negsuc : ℕ → ℤ

-- Success.
abbrev pub zero_result : ℤ
zero_result = pos 0

abbrev pub eio : ℤ
eio = negsuc 4

abbrev pub ebadf : ℤ
ebadf = negsuc 8

abbrev pub eagain : ℤ
eagain = negsuc 10

abbrev pub enomem : ℤ
enomem = negsuc 11

abbrev pub efault : ℤ
efault = negsuc 13

abbrev pub ebusy : ℤ
ebusy = negsuc 15

abbrev pub enodev : ℤ
enodev = negsuc 18

abbrev pub einval : ℤ
einval = negsuc 21

abbrev pub erofs : ℤ
erofs = negsuc 29

abbrev pub epipe : ℤ
epipe = negsuc 31

abbrev pub erange : ℤ
erange = negsuc 33

abbrev pub enametoolong : ℤ
enametoolong = negsuc 35

abbrev pub eproto : ℤ
eproto = negsuc 70

abbrev pub eoverflow : ℤ
eoverflow = negsuc 74

abbrev pub emsgsize : ℤ
emsgsize = negsuc 89
