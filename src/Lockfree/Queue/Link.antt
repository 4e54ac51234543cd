-- ===== src/Lockfree/Queue/Link.antt =====
-- The compare-exchange of `push` on the link of the last node.
use codelab.Base.{ℕ, suc, ◌≤◌, ◌≡◌, ◌≢◌, ◌⊎◌, sym, ◌∙◌, arith, ℕ_discrete, dec_lt}
use codelab.Lockfree.Stack.{update}
use codelab.Lockfree.Queue.{
  Pc, idle, pushing, got_tail, got_tail_next, linked, popping, got_head, got_head_next, got_both,
  taken, astray, owned, System,
}
use codelab.Lockfree.Queue.Sound.{IsNew, Follows, PcOk, IsLinked, Sound}

module _ (s : System) (v : Sound s) (i : ℕ) where
  module _ (x t p : ℕ) (new : IsNew s.node s.next s.last x) (at : t ≡ s.node p) (le : p ≤ s.tail_at)
      (null : s.next t ≡ 0) where
    pub at_end : p ≡ s.last
    at_end = elim (dec_lt p s.last) [
      | yes lt ↦ ground (arith, v.shared.link p lt, v.shared.nonzero (suc p) lt)
      | no ge ↦ omega (arith, v.shared.tail_last)
    ]

    after_link : System
    after_link = record s {
      next = update s.next t x;
      pc = update s.pc i (linked x t p);
      node = update s.node (suc s.last) x;
      last = suc s.last;
    }

    link-IsLinked : IsLinked after_link
    unfolding after_link
    link-IsLinked =
        let e = at_end in
        record {
          head = ground (arith, v.shared.head, v.shared.first_tail, v.shared.tail_last);
          tail = ground (arith, v.shared.tail, v.shared.tail_last);
          first_tail = v.shared.first_tail;
          tail_last = omega (arith, v.shared.tail_last);
          last_tail = omega arith;
          link = λ k lt. elim (ℕ_discrete k s.last) [
            | yes here ↦ ground arith
            | no before ↦ ground (
              arith,
              v.shared.link k (omega arith),
              v.shared.unique k s.last (omega arith) (omega arith),
            )
          ];
          end = ground (arith, new.2 s.last (omega arith));
          nonzero = λ k lt. elim (ℕ_discrete (suc s.last) k) [
            | yes here ↦ ground arith
            | no before ↦ ground (arith, v.shared.nonzero k (omega arith))
          ];
          unique = λ j k lj lk. elim (ℕ_discrete (suc s.last) j) [
            | yes here ↦ elim (ℕ_discrete (suc s.last) k) [
              | yes same ↦ λ q. omega arith
              | no before ↦ λ q. absurd (ground (arith, new.2 k (omega arith)))
            ]
            | no before ↦ elim (ℕ_discrete (suc s.last) k) [
              | yes last ↦ λ q. absurd (ground (arith, new.2 j (omega arith)))
              | no both ↦ λ q. ground (arith, v.shared.unique j k (omega arith) (omega arith))
            ]
          ];
          results = λ k lt.
              ground (arith, v.shared.results k lt, v.shared.first_tail, v.shared.tail_last);
        }

    node_kept : (k : ℕ) → k ≤ s.last → after_link.node k ≡ s.node k
    unfolding after_link
    node_kept k le' = ground arith

    IsNew-kept :
        (y : ℕ)
        → y ≢ x
        → IsNew s.node s.next s.last y
        → IsNew after_link.node after_link.next (suc s.last) y
    unfolding after_link
    IsNew-kept y ne (pos, link, apart) =
        let p_in : p ≤ s.last = omega (arith, v.shared.tail_last) in
        (
          pos,
          ground (arith, apart p p_in),
          λ k le'. elim (ℕ_discrete (suc s.last) k) [
            | yes here ↦ ground arith
            | no before ↦ ground (arith, apart k (omega arith))
          ],
        )

    Follows-kept : (q n : ℕ) → Follows s.node s.last q n → Follows after_link.node (suc s.last) q n
    Follows-kept q n f nonnull =
        let (e, lt) = f nonnull in (e ∙ sym (node_kept (suc q) lt), omega arith)

    other_after_link :
        (c : Pc)
        → (owned c ≡ 0) ⊎ (owned c ≢ x)
        → PcOk s.node s.next s.first s.tail_at s.last c
        → PcOk after_link.node after_link.next s.first s.tail_at (suc s.last) c
    other_after_link idle own ok = tt
    other_after_link popping own ok = tt
    other_after_link (taken h) own ok = tt
    other_after_link astray own ok = tt
    other_after_link (pushing y) own ok = IsNew-kept y (ground arith) ok
    other_after_link (got_tail y u q) own (new', e, le') = (
      IsNew-kept y (ground arith) new',
      e ∙ sym (node_kept q (omega (arith, v.shared.tail_last))),
      le',
    )
    other_after_link (got_tail_next y u q n) own (new', e, le', f) = (
      IsNew-kept y (ground arith) new',
      e ∙ sym (node_kept q (omega (arith, v.shared.tail_last))),
      le',
      Follows-kept q n f,
    )
    other_after_link (linked y u q) own (e, e', le', lt) =
        (e ∙ sym (node_kept (suc q) lt), e' ∙ sym (node_kept q (omega arith)), le', omega arith)
    other_after_link (got_head h q) own (e, le') =
        (e ∙ sym (node_kept q (omega (arith, v.shared.first_tail, v.shared.tail_last))), le')
    other_after_link (got_head_next h q n) own (e, le', f) = (
      e ∙ sym (node_kept q (omega (arith, v.shared.first_tail, v.shared.tail_last))),
      le',
      Follows-kept q n f,
    )
    other_after_link (got_both h q n u r) own (e, le', f, e', le'', lt) = (
      e ∙ sym (node_kept q (omega (arith, v.shared.first_tail, v.shared.tail_last))),
      le',
      Follows-kept q n f,
      e' ∙ sym (node_kept r (omega (arith, v.shared.tail_last))),
      le'',
      lt,
    )

    pub link-Sound :
        owned (s.pc i) ≡ x
        → Sound (record s {
          next = update s.next t x;
          pc = update s.pc i (linked x t p);
          node = update s.node (suc s.last) x;
          last = suc s.last;
        })
    unfolding after_link
    link-Sound mine = record {
      shared = link-IsLinked;
      thread = λ j. elim (ℕ_discrete i j) [
        | yes here ↦ let e = at_end in ground (arith, node_kept (suc p), at, v.shared.tail_last)
        | no other ↦
            let kept =
              other_after_link (s.pc j) (ground (arith, v.apart i j other, new.0)) (v.thread j) in
            ground arith
      ];
      apart = λ j k ne h. ground (arith, v.apart j k ne);
    }
