-- ===== src/MsgId.antt =====
-- RpcFramework/rocket/common/msg_util.cpp: the request ids of a thread. Characters are bytes. The bytes
-- that `read` gives from /dev/urandom are an argument, none where it reads fewer.
use rpc_framework.Base.{
  ℕ, zero, suc, ◌+◌, ◌%◌, ◌≤◌, ◌≡◌, ◌≢◌, refl, ap, sym, ◌∙◌, List, [], ◌∷◌, ◌++◌, Option, none,
  some, Bool, true, false, ◌||◌, ◌==◌, if◌then◌else◌, length, replicate, All, arith, map, text_eq,
  length-replicate,
}

-- `t_msg_id_no` and `t_max_msg_id_no`.
pub record MsgIds : Type 0 where
  pub t_msg_id_no : List ℕ
  pub t_max_msg_id_no : List ℕ

abbrev pub msg_id_length : ℕ
msg_id_length = 20

abbrev pub nine : ℕ
nine = b'9'

-- A random byte as a digit.
abbrev pub to_digit : ℕ → ℕ
to_digit b = b % 10 + b'0'

-- The index of the last character that is not '9', counted from `i`.
unfoldable pub last_below_nine : ℕ → List ℕ → Option ℕ
last_below_nine i [] = none
last_below_nine i (c ∷ cs) =
    let rest = last_below_nine (i + 1) cs in
    elim rest [ some j ↦ some j | none ↦ if c == nine then none else some i ]

-- `t_msg_id_no[i] += i`, and '0' behind it. The sum is narrowed to a `char`.
unfoldable pub bump : ℕ → ℕ → List ℕ → List ℕ
bump amount zero [] = []
bump amount (suc n) [] = []
bump amount zero (c ∷ cs) = ((c + amount) % 256) ∷ replicate (length cs) b'0'
bump amount (suc n) (c ∷ cs) = c ∷ bump amount n cs

abbrev pub is_empty : List ℕ → Bool
is_empty [] = true
is_empty (c ∷ cs) = false

-- `GenMsgID`: the id and the thread's state; none is the read of a character before the first.
unfoldable pub gen_msg_id : Option (List ℕ) → MsgIds → Option (List ℕ × MsgIds)
gen_msg_id random s =
    if is_empty s.t_msg_id_no || text_eq s.t_msg_id_no s.t_max_msg_id_no
    then elim random [
      | none ↦ some ([], s)
      | some res ↦
          let digits = map to_digit res in
          some (
            digits,
            record {
              t_msg_id_no = digits;
              t_max_msg_id_no = s.t_max_msg_id_no ++ replicate msg_id_length nine;
            },
          )
    ]
    else elim (last_below_nine 0 s.t_msg_id_no) [
      | none ↦ none
      | some i ↦ let next = bump i i s.t_msg_id_no in some (next, record s { t_msg_id_no = next })
    ]

abbrev pub IsDigit : ℕ → Type 0
IsDigit c = (48 ≤ c) × (c ≤ 57)

length-bump : (amount i : ℕ) (cs : List ℕ) → length (bump amount i cs) ≡ length cs
unfolding bump
length-bump amount zero [] = refl
length-bump amount (suc i) [] = refl
length-bump amount zero (c ∷ cs) = ap suc (length-replicate (length cs) b'0')
length-bump amount (suc i) (c ∷ cs) = ap suc (length-bump amount i cs)

map-digits :
    (res : List ℕ) → All IsDigit (map to_digit res) × (length (map to_digit res) ≡ length res)
map-digits [] = (tt, refl)
map-digits (b ∷ res) = ((omega arith, (map-digits res).0), ap suc (map-digits res).1)

-- Where 20 random bytes are read, the first id of a thread, and each one after the largest, is 20
-- digits.
pub gen_msg_id-fresh :
    (res : List ℕ) (s : MsgIds)
    → length res ≡ msg_id_length
    → is_empty s.t_msg_id_no || text_eq s.t_msg_id_no s.t_max_msg_id_no ≡ true
    → (id : List ℕ) × (s' : MsgIds) × (gen_msg_id (some res) s ≡ some (id, s'))
      × All IsDigit id
      × (length id ≡ msg_id_length)
      × (s'.t_msg_id_no ≡ id)
unfolding gen_msg_id
gen_msg_id-fresh res s h e = (
  map to_digit res,
  record {
    t_msg_id_no = map to_digit res;
    t_max_msg_id_no = s.t_max_msg_id_no ++ replicate msg_id_length nine;
  },
  rw e refl,
  (map-digits res).0,
  (map-digits res).1 ∙ h,
  refl,
)

last_below_nine-end :
    (i : ℕ) (cs : List ℕ) (c : ℕ)
    → c ≢ nine
    → last_below_nine i (cs ++ c ∷ []) ≡ some (i + length cs)
unfolding last_below_nine
last_below_nine-end i [] c h = ground arith
last_below_nine-end i (x ∷ cs) c h =
    rw (last_below_nine-end (i + 1) cs c h)
      (ap some {x = i + 1 + length cs} {y = i + suc (length cs)} (omega arith))

bump-end :
    (amount : ℕ) (cs : List ℕ) (c n : ℕ)
    → n ≡ length cs
    → bump amount n (cs ++ c ∷ []) ≡ cs ++ ((c + amount) % 256) ∷ []
unfolding bump
bump-end amount [] c zero e = refl
bump-end amount [] c (suc n) e = absurd (omega arith)
bump-end amount (x ∷ cs) c zero e = absurd (omega arith)
bump-end amount (x ∷ cs) c (suc n) e = ap (◌∷◌ x) (bump-end amount cs c n (omega arith))

-- After an id of 20 characters that ends in a digit below nine and is not the largest, the next id
-- is the same but for its last character, which has grown by 19 instead of 1 and is no digit any
-- more.
pub gen_msg_id-no-IsDigit :
    (random : Option (List ℕ)) (cs : List ℕ) (c : ℕ) (s : MsgIds)
    → length cs ≡ 19
    → IsDigit c
    → c ≢ nine
    → s.t_msg_id_no ≡ cs ++ c ∷ []
    → text_eq s.t_msg_id_no s.t_max_msg_id_no ≡ false
    → (gen_msg_id random s
        ≡ some (cs ++ (c + 19) ∷ [], record s { t_msg_id_no = cs ++ (c + 19) ∷ [] }))
      × (¬ IsDigit (c + 19))
unfolding gen_msg_id
gen_msg_id-no-IsDigit random [] c s l d n e t = absurd (omega arith)
gen_msg_id-no-IsDigit random (x ∷ cs) c s l d n e t =
    let full : 0 + length (x ∷ cs) ≡ 19 = omega (arith, l) in
    let small : (c + 19) % 256 ≡ c + 19 = omega (arith, d.0, d.1) in
    let last = last_below_nine-end 0 (x ∷ cs) c n in
    let next = bump-end 19 (x ∷ cs) c 19 (sym l) in
    (rw (e, gen_msg_id, (rw e at t), last, full, ap (bump 19 19) e, next, small) refl, omega arith)
