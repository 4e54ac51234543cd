-- ===== src/Lockfree/TagPtr/Packing.antt =====
-- What packing and unpacking a tagged pointer keep.
use codelab.Base.{
  ℕ, zero, suc, ◌+◌, ◌*◌, ◌%◌, ◌^◌, ◌<◌, ◌≡◌, ◌≢◌, true, false, arith, ◌==◌, if◌then◌else◌, ◌∙◌,
  refl,
}
use codelab.Base.Bits.{bit_and_ones}
use codelab.Lockfree.TagPtr.{
  store_tag, pack_ptr, extract_tag, get_ptr, get_tag, get_next_tag, set_tag, is_set,
}

get_ptr_lem : (w : ℕ) → get_ptr w ≡ w % 2 ^ 48
unfolding get_ptr
get_ptr_lem w = bit_and_ones 48 w

pub get_next_tag_lem : (w : ℕ) → get_next_tag w ≡ (get_tag w + 1) % 2 ^ 16
unfolding get_next_tag
get_next_tag_lem w = bit_and_ones 16 (get_tag w + 1)

-- A pointer below 2^48 comes back from its packing, with the low 16 bits of the version, and the
-- packing is null exactly for the null pointer, whatever the version.
pub pack_ptr_fields :
    (p v : ℕ)
    → p < 2 ^ 48
    → (get_ptr (pack_ptr p v) ≡ p)
      × (get_tag (pack_ptr p v) ≡ v % 2 ^ 16)
      × (is_set (pack_ptr p v) ≡ (if p == 0 then false else true))
unfolding pack_ptr store_tag get_tag extract_tag is_set
pack_ptr_fields p v h =
    let ptr : get_ptr (p % 2 ^ 48 + v % 2 ^ 16 * 2 ^ 48) ≡ p = get_ptr_lem _ ∙ omega arith in
    (ptr, omega arith, rw ptr refl)

-- Every 64-bit word is the packing of its pointer and its tag, so two words with the same pointer
-- and the same tag are one.
pub pack-get : (w : ℕ) → w < 2 ^ 64 → pack_ptr (get_ptr w) (get_tag w) ≡ w
unfolding pack_ptr store_tag get_tag extract_tag
pack-get w h = omega (arith, get_ptr_lem w)

-- `SetTag` changes the tag alone.
pub set_tag_fields :
    (v w : ℕ) → (get_ptr (set_tag v w) ≡ get_ptr w) × (get_tag (set_tag v w) ≡ v % 2 ^ 16)
unfolding set_tag store_tag get_tag extract_tag
set_tag_fields v w = (get_ptr_lem _ ∙ omega (arith, get_ptr_lem w), omega arith)

-- The tag after `n` turns of `GetNextTag`.
pub next_tags : ℕ → ℕ → ℕ
next_tags zero w = w
next_tags (suc n) w = next_tags n (set_tag (get_next_tag w) w)

next_tags_lem : (n w : ℕ) → get_tag (next_tags n w) ≡ (get_tag w + n) % 2 ^ 16
unfolding next_tags
next_tags_lem zero w = unfold get_tag extract_tag in omega arith
next_tags_lem (suc n) w = omega (
  arith,
  next_tags_lem n (set_tag (get_next_tag w) w),
  (set_tag_fields (get_next_tag w) w).1,
  get_next_tag_lem w,
)

-- Fewer than 65536 turns never bring an old tag back.
pub next_tags-ne : (n w : ℕ) → 0 < n → n < 2 ^ 16 → get_tag (next_tags n w) ≢ get_tag w
next_tags-ne n w pos small = omega (arith, next_tags_lem n w, tag_lt w)
  where
    tag_lt : (w : ℕ) → get_tag w < 2 ^ 16
    tag_lt w = unfold get_tag extract_tag in omega arith

-- The tag of a packing, whatever the pointer.
pub tag_of_pack : (p v : ℕ) → get_tag (pack_ptr p v) ≡ v % 2 ^ 16
unfolding pack_ptr store_tag get_tag extract_tag
tag_of_pack p v = omega arith

pub is_set_lem : (w : ℕ) → is_set w ≡ (if get_ptr w == 0 then false else true)
unfolding is_set
is_set_lem w = refl
