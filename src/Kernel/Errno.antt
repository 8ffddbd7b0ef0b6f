-- ===== src/Kernel/Errno.antt =====
-- include/errno.h: a system call returns the negated error number.
use linux_rpg.Prelude.Int.{ℤ, negsuc}

-- -EPERM
abbrev pub eperm : ℤ
eperm = negsuc 0

-- -ESRCH
abbrev pub esrch : ℤ
esrch = negsuc 2

-- -EINTR
abbrev pub eintr : ℤ
eintr = negsuc 3

-- -EBADF
abbrev pub ebadf : ℤ
ebadf = negsuc 8

-- -EAGAIN
abbrev pub eagain : ℤ
eagain = negsuc 10

-- -ECHILD
abbrev pub echild : ℤ
echild = negsuc 9

-- -EINVAL
abbrev pub einval : ℤ
einval = negsuc 21

-- -EMFILE
abbrev pub emfile : ℤ
emfile = negsuc 23
