-- ===== src/Sorting/Merge.antt =====
-- algo/merge_sort.c, with the ends of its parts kept one higher: `lend + 1`, `rend + 1`, `u + 1`.
pub mod Loops
pub mod Sort
use codelab.Base.{
  ℕ, zero, suc, ◌+◌, ◌-◌, ◌/◌, ◌&&◌, Bool, true, false, Option, none, some, ltb, leb, if◌then◌else◌,
}
use codelab.Base.Int.{ℤ, ltb_ℤ}
use codelab.Sorting.{Array, read, write}

-- `help[num] = x`.
unfoldable pub put : Array → (num : ℕ) → ℤ → Option Array
put help num x = if ltb num help.size then some (write help num x) else none

-- `while (i < end) help[num++] = arr[i++]`.
unfoldable pub copy_loop : (rounds : ℕ) → (a help : Array) → (i end num : ℕ) → Option (Array × ℕ)
copy_loop zero a help i end num = none
copy_loop (suc n) a help i end num = elim (ltb i end) [
  | false ↦ some (help, num)
  | true ↦ elim (read a i) [
    | none ↦ none
    | some x ↦ elim (put help num x) [
      | none ↦ none
      | some h ↦ copy_loop n a h (suc i) end (suc num)
    ]
  ]
]

-- Where the first loop of `merge` stops.
pub record Stop : Type 0 where
  pub help : Array
  pub lbegin : ℕ
  pub rbegin : ℕ
  pub num : ℕ

-- The first loop of `merge`.
unfoldable pub merge_loop :
    (rounds : ℕ) → (a help : Array) → (lbegin le rbegin re num : ℕ) → Option Stop
merge_loop zero a help lb le rb re num = none
merge_loop (suc n) a help lb le rb re num =
    if ltb lb le && ltb rb re
    then (elim (read a lb) [
      | none ↦ none
      | some x ↦ elim (read a rb) [
        | none ↦ none
        | some y ↦ elim (ltb_ℤ x y) [
          | true ↦ elim (put help num x) [
            | none ↦ none
            | some h ↦ merge_loop n a h (suc lb) le rb re (suc num)
          ]
          | false ↦ elim (put help num y) [
            | none ↦ none
            | some h ↦ merge_loop n a h lb le (suc rb) re (suc num)
          ]
        ]
      ]
    ])
    else some (record { help = help; lbegin = lb; rbegin = rb; num = num })

-- `for (i = 0; i < num; i++) arr[l++] = help[i]`.
unfoldable pub copy_back : (rounds : ℕ) → (a help : Array) → (l i num : ℕ) → Option Array
copy_back zero a help l i num = none
copy_back (suc n) a help l i num = elim (ltb i num) [
  | false ↦ some a
  | true ↦ elim (read help i) [
    | none ↦ none
    | some x ↦ elim (put a l x) [ none ↦ none | some b ↦ copy_back n b help (suc l) (suc i) num ]
  ]
]

-- The two arrays after `merge(arr, help, l, mid, u)`; `le` is mid + 1 and `re` is u + 1.
unfoldable pub merge : (a help : Array) → (l le re : ℕ) → Option (Array × Array)
merge a help l le re = elim (merge_loop (suc re) a help l le le re 0) [
  | none ↦ none
  | some s ↦ elim (copy_loop (suc le) a s.help s.lbegin le s.num) [
    | none ↦ none
    | some (h, num) ↦ elim (copy_loop (suc re) a h s.rbegin re num) [
      | none ↦ none
      | some (h', num') ↦ elim (copy_back (suc num') a h' l 0 num') [
        | none ↦ none
        | some b ↦ some (b, h')
      ]
    ]
  ]
]

-- `merge_impl(arr, l, u, help)` on calls nested at most as deep as the first argument.
unfoldable pub merge_impl : (depth : ℕ) → (a help : Array) → (l hi : ℕ) → Option (Array × Array)
merge_impl zero a help l hi = if ltb (suc l) hi then none else some (a, help)
merge_impl (suc n) a help l hi =
    if ltb (suc l) hi
    then (let le = suc (l + (hi - 1 - l) / 2) in
        elim (merge_impl n a help l le) [
          | none ↦ none
          | some (b, h) ↦ elim (merge_impl n b h le hi) [
            | none ↦ none
            | some (c, h') ↦ merge c h' l le hi
          ]
        ])
    else some (a, help)

-- `malloc` gives memory with anything in it, or null.
unfoldable pub merge_sort : (memory : Option (ℕ → ℤ)) → Array → (len : ℕ) → Option Array
merge_sort memory a len = if leb len 1 then some a else (elim memory [
  | none ↦ some a
  | some m ↦ elim (merge_impl len a (record { size = len; at = m }) 0 len) [
    | none ↦ none
    | some (b, _) ↦ some b
  ]
])
