-- ===== src/SkipList/Room.antt =====
-- The block of memory of a node, and the writes that go past it.
use codelab.Base.{
  ℕ, zero, suc, ◌+◌, ◌*◌, ◌≤◌, ◌<◌, ◌≡◌, refl, ◌∙◌, Option, none, some, arith, dec_lt, ℕ_discrete,
  sym, subst,
}
use codelab.SkipList.{SkipList, with_next, with_head, set_next, null_levels, init}

abbrev pub extra_of : SkipList → ℕ → ℕ
extra_of l x = (l.node x).extra

-- Links of at most four bytes, up to the level `k`, take no more than four bytes for each level.
pub mul_le : (w d k : ℕ) → w ≤ 4 → d ≤ k → w * d ≤ 4 * k
mul_le w zero k small le = omega arith
mul_le w (suc d) zero small le = absurd (omega arith)
mul_le w (suc d) (suc k) small le = omega (arith, mul_le w d k small (omega arith))

module _ (ptr_size : ℕ) where
  pub set_next-some :
      (l : SkipList) (x i : ℕ) (y : Option ℕ)
      → ptr_size * i ≤ extra_of l x
      → set_next ptr_size l x i y ≡ some (with_next l x i y)
  set_next-some l x i y room = ground (arith, room)

  set_next-none :
      (l : SkipList) (x i : ℕ) (y : Option ℕ)
      → extra_of l x < ptr_size * i
      → set_next ptr_size l x i y ≡ none
  set_next-none l x i y past = ground (arith, past)

  -- What the loop of the constructor leaves.
  pub record Nulled (l l' : SkipList) (i stop : ℕ) : Type 0 where
    pub height : l'.max_height ≡ l.max_height
    pub extra : (z : ℕ) → extra_of l' z ≡ extra_of l z
    pub nulls : (d : ℕ) → i ≤ d → d < stop → (l'.node 0).next d ≡ none
    pub kept : (d : ℕ) → stop ≤ d → (l'.node 0).next d ≡ (l.node 0).next d
    pub before : (d : ℕ) → d < i → (l'.node 0).next d ≡ (l.node 0).next d

  pub null_levels-Nulled :
      (n i : ℕ) (l : SkipList)
      → ((d : ℕ) → d < i + n → ptr_size * d ≤ extra_of l 0)
      → (l' : SkipList) × (null_levels ptr_size n i l ≡ some l') × Nulled l l' i (i + n)
  null_levels-Nulled zero i l room = (
    l,
    refl,
    record {
      height = refl;
      extra = λ z. refl;
      nulls = λ d le lt. absurd (omega arith);
      kept = λ d le. refl;
      before = λ d lt. refl;
    },
  )
  null_levels-Nulled (suc n) i l room =
      let m = with_next l 0 i none in
      let same : (z : ℕ) → extra_of m z ≡ extra_of l z = λ z. ground arith in
      let (l', e, k) =
        null_levels-Nulled n (suc i) m (λ d lt. omega (arith, same 0, room d (omega arith))) in
      (
        l',
        ground (arith, set_next-some l 0 i none (room i (omega arith)), e),
        record {
          height = k.height;
          extra = λ z. k.extra z ∙ same z;
          nulls = λ d le lt. elim (ℕ_discrete d i) [
            | yes here ↦ k.before d (omega arith) ∙ ground arith
            | no later ↦ k.nulls d (omega arith) (omega arith)
          ];
          kept = λ d le. k.kept d (omega arith) ∙ ground arith;
          before = λ d lt. k.before d (omega arith) ∙ ground arith;
        },
      )

  null_levels-none :
      (n i : ℕ) (l : SkipList)
      → 4 < ptr_size
      → extra_of l 0 ≡ 44
      → i ≤ 11
      → 11 < i + n
      → null_levels ptr_size n i l ≡ none
  null_levels-none zero i l wide block le lt = absurd (omega arith)
  null_levels-none (suc n) i l wide block le lt = elim (dec_lt (extra_of l 0) (ptr_size * i)) [
    | yes past ↦ ground (arith, set_next-none l 0 i none past)
    | no room ↦
        let below : i ≤ 10 = last_level i le room in
        let m = with_next l 0 i none in
        let same : extra_of m 0 ≡ 44 = ground arith in
        let rest = null_levels-none n (suc i) m wide same (omega arith) (omega arith) in
        ground (arith, set_next-some l 0 i none (omega arith), rest)
  ]
    where
      last_level : (i : ℕ) → i ≤ 11 → ¬ (extra_of l 0 < ptr_size * i) → i ≤ 10
      last_level i le room = elim (ℕ_discrete i 11) [
        | no lower ↦ omega arith
        | yes last ↦
            absurd (room (subst (λ d. extra_of l 0 < ptr_size * d) (sym last) (omega arith)))
      ]

  -- Where a pointer takes more than four bytes, the constructor writes past the block that it
  -- allocates for the head, whatever the memory held.
  pub init-none : (memory : ℕ → Option ℕ) → 4 < ptr_size → init ptr_size memory ≡ none
  init-none memory wide =
      null_levels-none 12 0 (with_head memory) wide refl (omega arith) (omega arith)
