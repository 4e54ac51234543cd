-- ===== src/LruCache/Released.antt =====
-- `Insert` with the null pointer that `e` holds once it is released.
use codelab.LruCache.{LruCache}
use codelab.LruCache.Sound.{Sound}
