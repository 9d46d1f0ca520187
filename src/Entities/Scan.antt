-- ===== src/Entities/Scan.antt =====
-- services/entity_resolution/candidates.py: the pages of the scan, taken one after another with the
-- cursor of the last, are the whole list of the eligible entities.
pub mod Order
use procintel.Common.{
  ℕ, zero, suc, ◌+◌, ◌≤◌, ◌<◌, ◌≡◌, refl, Bool, true, false, Option, none, some, List, [], ◌∷◌,
  ◌++◌, ltb, leb, if◌then◌else◌, arith, tests, length, take, drop, Bool-cases, inl, inr, not, ap,
  ◌∙◌,
}
use procintel.Common.Table.{select_where, order_by, length-order_by}
use procintel.Common.PrimaryKey.{IsNodup}
use procintel.Entities.Candidates.{last_of, candidate_scan_page, after_cursor, anchor_rows}
use procintel.Entities.Scan.Order.{remaining, remaining_next, order_by-select_where}

-- The requests of a client that passes each page's cursor on, until a page has none.
unfoldable pub scan : ℕ → List ℕ → ℕ → Option ℕ → List ℕ
unfolding candidate_scan_page anchor_rows
scan zero eligible anchor_limit cursor = []
scan (suc fuel) eligible anchor_limit cursor =
    let page = candidate_scan_page (anchor_rows eligible cursor anchor_limit) anchor_limit in
    page.entity_ids
    ++ elim page.next_cursor [ none ↦ [] | some next ↦ scan fuel eligible anchor_limit (some next) ]

module _ {ℓ} {A : Type ℓ} where
  append_nil : (xs : List A) → xs ++ [] ≡ xs
  append_nil [] = refl
  append_nil (x ∷ xs) = ap (◌∷◌ x) (append_nil xs)

  take-all : (n : ℕ) (xs : List A) → length xs ≤ n → take n xs ≡ xs
  take-all zero [] h = refl
  take-all zero (x ∷ xs) h = ground arith
  take-all (suc n) [] h = refl
  take-all (suc n) (x ∷ xs) h = ap (◌∷◌ x) (take-all n xs (omega arith))

  take-drop : (n : ℕ) (xs : List A) → take n xs ++ drop n xs ≡ xs
  take-drop zero xs = refl
  take-drop (suc n) [] = refl
  take-drop (suc n) (x ∷ xs) = ap (◌∷◌ x) (take-drop n xs)

  take-take-suc : (n : ℕ) (xs : List A) → take n (take (suc n) xs) ≡ take n xs
  take-take-suc zero xs = refl
  take-take-suc (suc n) [] = refl
  take-take-suc (suc n) (x ∷ xs) = ap (◌∷◌ x) (take-take-suc n xs)

  ltb-length-take : (n : ℕ) (xs : List A) → ltb n (length (take (suc n) xs)) ≡ ltb n (length xs)
  ltb-length-take zero [] = refl
  ltb-length-take zero (x ∷ xs) = ground arith
  ltb-length-take (suc n) [] = refl
  ltb-length-take (suc n) (x ∷ xs) = ground (arith, ltb-length-take n xs)

  length-drop-lt : (n : ℕ) (xs : List A) → suc n < length xs → length (drop (suc n) xs) < length xs
  length-drop-lt n [] h = ground arith
  length-drop-lt zero (x ∷ xs) h = omega arith
  length-drop-lt (suc n) (x ∷ []) h = ground arith
  length-drop-lt (suc n) (x ∷ y ∷ ys) h = omega (arith, length-drop-lt n (y ∷ ys) (omega arith))

add_one : (n : ℕ) → n + 1 ≡ suc n
add_one n = omega arith

last_of-some : (x : ℕ) (xs : List ℕ) → (y : ℕ) × (last_of (x ∷ xs) ≡ some y)
last_of-some x [] = (x, refl)
last_of-some x (y ∷ ys) = last_of-some y ys

last_of-take :
    (n : ℕ) (xs : List ℕ) → suc n < length xs → (y : ℕ) × (last_of (take (suc n) xs) ≡ some y)
last_of-take n [] h = ground arith
last_of-take n (x ∷ xs) h = last_of-some x (take n xs)

page_of :
    (eligible : List ℕ) (cursor : Option ℕ) (n : ℕ)
    → candidate_scan_page (anchor_rows eligible cursor (suc n)) (suc n) ≡ record {
      entity_ids = take (suc n) (remaining eligible cursor);
      next_cursor =
          if ltb (suc n) (length (remaining eligible cursor))
          then last_of (take (suc n) (remaining eligible cursor))
          else none;
      complete = not (ltb (suc n) (length (remaining eligible cursor)));
    }
unfolding candidate_scan_page anchor_rows
page_of eligible cursor n =
    rw
      (
        add_one (suc n),
        order_by-select_where (after_cursor cursor) eligible,
        take-take-suc (suc n) (remaining eligible cursor),
        ltb-length-take (suc n) (remaining eligible cursor),
      )
      refl

scan_turn :
    (fuel : ℕ) (eligible : List ℕ) (n : ℕ) (cursor : Option ℕ)
    → scan (suc fuel) eligible (suc n) cursor
      ≡ take (suc n) (remaining eligible cursor)
        ++ elim (if ltb (suc n) (length (remaining eligible cursor))
            then last_of (take (suc n) (remaining eligible cursor))
            else none) [ none ↦ [] | some next ↦ scan fuel eligible (suc n) (some next) ]
unfolding scan
scan_turn fuel eligible n cursor =
    ap
      (λ page.
        page.entity_ids
        ++ elim page.next_cursor [ none ↦ [] | some next ↦ scan fuel eligible (suc n) (some next) ])
      (page_of eligible cursor n)

last_page :
    (fuel : ℕ) (eligible : List ℕ) (n : ℕ) (cursor : Option ℕ)
    → ltb (suc n) (length (remaining eligible cursor)) ≡ false
    → scan (suc fuel) eligible (suc n) cursor ≡ remaining eligible cursor
last_page fuel eligible n cursor e =
    scan_turn fuel eligible n cursor
    ∙ rw (e, append_nil (take (suc n) (remaining eligible cursor)))
        (take-all (suc n) (remaining eligible cursor) (ground arith))

next_page :
    (fuel : ℕ) (eligible : List ℕ) (n : ℕ) (cursor : Option ℕ) (x : ℕ)
    → IsNodup eligible
    → ltb (suc n) (length (remaining eligible cursor)) ≡ true
    → last_of (take (suc n) (remaining eligible cursor)) ≡ some x
    → scan fuel eligible (suc n) (some x) ≡ remaining eligible (some x)
    → scan (suc fuel) eligible (suc n) cursor ≡ remaining eligible cursor
next_page fuel eligible n cursor x distinct e last rest =
    scan_turn fuel eligible n cursor
    ∙ rw (e, last, rest, remaining_next eligible cursor n x distinct last)
        (take-drop (suc n) (remaining eligible cursor))

scan-remaining :
    (fuel : ℕ) (eligible : List ℕ) (n : ℕ) (cursor : Option ℕ)
    → IsNodup eligible
    → length (remaining eligible cursor) ≤ fuel
    → scan (suc fuel) eligible (suc n) cursor ≡ remaining eligible cursor
scan-remaining zero eligible n cursor distinct le = last_page zero eligible n cursor (ground arith)
scan-remaining (suc fuel) eligible n cursor distinct le =
    elim (Bool-cases (ltb (suc n) (length (remaining eligible cursor)))) [
      | inr e ↦ last_page (suc fuel) eligible n cursor e
      | inl e ↦
          let (x, last) = last_of-take n (remaining eligible cursor) (omega tests) in
          next_page (suc fuel) eligible n cursor x distinct e last (
            scan-remaining fuel eligible n (some x) distinct (
              rw (remaining_next eligible cursor n x distinct last)
                (omega (arith, length-drop-lt n (remaining eligible cursor) (omega tests)))))
    ]

select_where-true : (rows : List ℕ) → select_where (λ r. true) rows ≡ rows
unfolding select_where
select_where-true [] = refl
select_where-true (r ∷ rows) = ap (◌∷◌ r) (select_where-true rows)

-- The scan by pages visits each eligible entity once, in the order of the ids, and ends: with pages
-- of one entity or more and as many requests as there are entities and one, the pages together are
-- the whole sorted list, given that the ids are distinct.
pub scan-is_complete :
    (eligible : List ℕ) (n : ℕ)
    → IsNodup eligible
    → scan (suc (length eligible)) eligible (suc n) none ≡ order_by leb eligible
scan-is_complete eligible n distinct =
    scan-remaining (length eligible) eligible n none distinct (
      omega (
        arith,
        length-order_by leb eligible,
        ap length (select_where-true (order_by leb eligible)),
      ))
    ∙ select_where-true (order_by leb eligible)
