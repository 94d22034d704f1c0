-- ===== src/Base/Codes.antt =====
-- The results that the functions return: 0, the negated errno values, and the plain -1.
pub data Status : Type 0 where
  success failed eperm enoent eio enomem eexist einval enospc : Status
