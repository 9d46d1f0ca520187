-- ===== src/Entities/Scan/Order.antt =====
-- services/entity_resolution/candidates.py: ORDER BY id, WHERE id > cursor and LIMIT on distinct ids.
use procintel.Common.{
  ℕ, zero, suc, ◌≡◌, refl, Bool, true, false, Option, none, some, List, [], ◌∷◌, ltb, leb, ◌==◌,
  if◌then◌else◌, arith, take, drop, All, All-map, All-take, Bool-cases, inl, inr, ap, ◌∙◌,
  leb_trans, leb_total,
}
use procintel.Common.Table.{
  select_where, insert_by, order_by, IsSorted, order_by-IsSorted, All-order_by, All-select_where,
  All-insert_by,
}
use procintel.Common.PrimaryKey.{IsNodup}
use procintel.Entities.Candidates.{last_of, after_cursor}

insert_by-front : (x : ℕ) (ys : List ℕ) → All (λ y. leb x y ≡ true) ys → insert_by leb x ys ≡ x ∷ ys
unfolding insert_by
insert_by-front x [] h = refl
insert_by-front x (y ∷ ys) h = rw h.0 refl

module _ (p : ℕ → Bool) where
  select_where-insert_by :
      (x : ℕ) (ys : List ℕ)
      → IsSorted leb ys
      → select_where p (insert_by leb x ys)
        ≡ (if p x then insert_by leb x (select_where p ys) else select_where p ys)
  unfolding select_where insert_by
  select_where-insert_by x [] h = ground arith
  select_where-insert_by x (y ∷ ys) h = elim (Bool-cases (leb x y)) [
    | inl e ↦ rw (e, front e) refl
    | inr e ↦ ground (arith, select_where-insert_by x ys h.1)
  ]
    where
      front :
          leb x y ≡ true → insert_by leb x (select_where p (y ∷ ys)) ≡ x ∷ select_where p (y ∷ ys)
      front e = insert_by-front x (select_where p (y ∷ ys)) (
          All-select_where (λ z. leb x z ≡ true) (λ z. leb x z ≡ true) p (y ∷ ys) (λ z hit le. le)
            (
              e,
              All-map (λ z. leb y z ≡ true) (λ z. leb x z ≡ true) ys (λ z. leb_trans x y z e) h.0,
            ))

  -- A selection of the sorted rows is the sorted selection.
  pub order_by-select_where :
      (xs : List ℕ) → order_by leb (select_where p xs) ≡ select_where p (order_by leb xs)
  unfolding select_where order_by
  order_by-select_where [] = refl
  order_by-select_where (x ∷ xs) = elim (Bool-cases (p x)) [
    | inl e ↦
        rw
          (
            e,
            order_by-select_where xs,
            select_where-insert_by x (order_by leb xs)
                (order_by-IsSorted leb leb_trans leb_total xs),
            e,
          )
          refl
    | inr e ↦
        rw
          (
            e,
            order_by-select_where xs,
            select_where-insert_by x (order_by leb xs)
                (order_by-IsSorted leb leb_trans leb_total xs),
            e,
          )
          refl
  ]

insert_by-IsStrict :
    (x : ℕ) (ys : List ℕ)
    → All (λ y. (x == y) ≡ false) ys
    → IsSorted ltb ys
    → IsSorted ltb (insert_by leb x ys)
unfolding insert_by
insert_by-IsStrict x [] other h = (tt, tt)
insert_by-IsStrict x (y ∷ ys) other h = elim (Bool-cases (leb x y)) [
  | inl e ↦ rw e (
    (
      ground arith,
      All-map (λ z. ltb y z ≡ true) (λ z. ltb x z ≡ true) ys (λ z later. ground arith) h.0,
    ),
    h,
  )
  | inr e ↦ rw e (
    All-insert_by (λ z. ltb y z ≡ true) leb x ys (ground arith) h.0,
    insert_by-IsStrict x ys other.1 h.1,
  )
]

order_by-IsStrict : (xs : List ℕ) → IsNodup xs → IsSorted ltb (order_by leb xs)
unfolding order_by
order_by-IsStrict [] h = tt
order_by-IsStrict (x ∷ xs) h =
    insert_by-IsStrict x (order_by leb xs) (All-order_by (λ y. (x == y) ≡ false) leb xs h.0)
      (order_by-IsStrict xs h.1)

some_eq : (x y : ℕ) → some x ≡ some y → x ≡ y
some_eq x y h = ground arith

ltb_irrefl : (x : ℕ) → ltb x x ≡ false
ltb_irrefl x = ground arith

ltb_asym : (x y : ℕ) → ltb x y ≡ true → ltb y x ≡ false
ltb_asym x y h = ground arith

All-last_of {κ} : (P : ℕ → Type κ) (xs : List ℕ) (x : ℕ) → All P xs → last_of xs ≡ some x → P x
All-last_of P [] x h e = cc
All-last_of P (y ∷ []) x h e = rw (← some_eq y x e) h.0
All-last_of P (y ∷ z ∷ zs) x h e = All-last_of P (z ∷ zs) x h.1 e

select_all : (x : ℕ) (ys : List ℕ) → All (λ y. ltb x y ≡ true) ys → select_where (ltb x) ys ≡ ys
unfolding select_where
select_all x [] h = refl
select_all x (y ∷ ys) h = rw h.0 (ap (◌∷◌ y) (select_all x ys h.1))

-- Behind the last id of a page come the rows that the page has left.
select-drop :
    (n : ℕ) (rows : List ℕ) (x : ℕ)
    → IsSorted ltb rows
    → last_of (take (suc n) rows) ≡ some x
    → select_where (ltb x) rows ≡ drop (suc n) rows
unfolding select_where
select-drop n [] x h e = refl
select-drop zero (r ∷ rows) x h e =
    rw (some_eq r x e, ltb_irrefl x) (select_all x rows (rw (some_eq r x e) at h.0))
select-drop (suc n) (r ∷ []) x h e = rw (some_eq r x e, ltb_irrefl x) refl
select-drop (suc n) (r ∷ s ∷ rows) x h e =
    rw
      (ltb_asym r x (
        All-last_of (λ y. ltb r y ≡ true) (take (suc n) (s ∷ rows)) x
          (All-take (λ y. ltb r y ≡ true) (suc n) (s ∷ rows) h.0) e))
      (select-drop n (s ∷ rows) x h.1 e)

-- What the scan has still to visit at a cursor.
abbrev pub remaining : List ℕ → Option ℕ → List ℕ
remaining eligible cursor = select_where (after_cursor cursor) (order_by leb eligible)

select_where-IsStrict :
    (p : ℕ → Bool) (rows : List ℕ) → IsSorted ltb rows → IsSorted ltb (select_where p rows)
unfolding select_where
select_where-IsStrict p [] h = tt
select_where-IsStrict p (r ∷ rows) h = elim (Bool-cases (p r)) [
  | inl e ↦ rw e (
    All-select_where (λ z. ltb r z ≡ true) (λ z. ltb r z ≡ true) p rows (λ z hit later. later) h.0,
    select_where-IsStrict p rows h.1,
  )
  | inr e ↦ rw e (select_where-IsStrict p rows h.1)
]

select_narrower :
    (p q : ℕ → Bool) (rows : List ℕ)
    → ((r : ℕ) → q r ≡ true → p r ≡ true)
    → select_where q rows ≡ select_where q (select_where p rows)
unfolding select_where
select_narrower p q [] h = refl
select_narrower p q (r ∷ rows) h = elim (Bool-cases (p r)) [
  | inl e ↦ rw e (ground (arith, select_narrower p q rows h))
  | inr e ↦ rw e (ground (arith, select_narrower p q rows h, h r))
]

select_where-satisfies :
    (p : ℕ → Bool) (rows : List ℕ) → All (λ r. p r ≡ true) (select_where p rows)
unfolding select_where
select_where-satisfies p [] = tt
select_where-satisfies p (r ∷ rows) = elim (Bool-cases (p r)) [
  | inl e ↦ rw e (e, select_where-satisfies p rows)
  | inr e ↦ rw e (select_where-satisfies p rows)
]

-- The next cursor leaves what the page has left.
pub remaining_next :
    (eligible : List ℕ) (cursor : Option ℕ) (n x : ℕ)
    → IsNodup eligible
    → last_of (take (suc n) (remaining eligible cursor)) ≡ some x
    → remaining eligible (some x) ≡ drop (suc n) (remaining eligible cursor)
remaining_next eligible cursor n x distinct e =
    select_narrower (after_cursor cursor) (ltb x) (order_by leb eligible) (λ r later.
      after_trans cursor x r
        (All-last_of (λ y. after_cursor cursor y ≡ true) (take (suc n) (remaining eligible cursor))
          x
          (All-take (λ y. after_cursor cursor y ≡ true) (suc n) (remaining eligible cursor)
            (select_where-satisfies (after_cursor cursor) (order_by leb eligible)))
          e)
        later)
    ∙ select-drop n (remaining eligible cursor) x
        (select_where-IsStrict (after_cursor cursor) (order_by leb eligible)
          (order_by-IsStrict eligible distinct))
        e
  where
    after_trans :
        (c : Option ℕ) (y r : ℕ)
        → after_cursor c y ≡ true
        → ltb y r ≡ true
        → after_cursor c r ≡ true
    after_trans none y r h k = refl
    after_trans (some c) y r h k = ground arith
