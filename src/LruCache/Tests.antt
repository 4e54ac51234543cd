-- ===== src/LruCache/Tests.antt =====
-- The theorem on a new cache.
use codelab.Base.{true}
use codelab.LruCache.{LruHandle, LruCache}
use codelab.LruCache.Sound.{Sound}

abbrev junk : LruHandle
junk = record { value = 9; key = 9; ref = 9; valid = true }
