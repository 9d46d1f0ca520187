-- ===== src/Clients/Quota/Limit.antt =====
-- No identity gets more requests through in one window than the limit.
use procintel.Common.{
  ℕ, suc, ◌+◌, ◌≤◌, ◌<◌, ◌≡◌, refl, Bool, true, false, ◌&&◌, ◌||◌, String, List, [], ◌∷◌, leb, ◌==◌,
  str_eq, eq_iff, if◌then◌else◌, arith, any_of, max, Bool-cases, inl, inr, tests, leb→le, and→both,
  ==→eq,
}
use procintel.Clients.Quota.{
  WindowRow, window_at, count_of, increment, unique_identities, increment_all, highest_count,
  QuotaResult, decided, quota_of, consume_request_quota,
}

module _ (other : String) (window : ℕ) where
  count_of-increment :
      (identity : String) (at : ℕ) (rows : List WindowRow)
      → count_of other window (increment identity at rows) ≡ (
          if str_eq identity other && at == window
          then suc (count_of other window rows)
          else count_of other window rows)
  unfolding count_of increment
  count_of-increment identity at [] = ground arith
  count_of-increment identity at (row ∷ rows) = ground (
    arith,
    eq_iff identity other,
    eq_iff row.identity identity,
    eq_iff row.identity other,
    count_of-increment identity at rows,
  )

  count_of-increment_all_le :
      (identities : List String) (at : ℕ) (rows : List WindowRow)
      → count_of other window rows ≤ count_of other window (increment_all identities at rows)
  unfolding increment_all
  count_of-increment_all_le [] at rows = omega arith
  count_of-increment_all_le (identity ∷ rest) at rows = ground (
    arith,
    count_of-increment identity at rows,
    count_of-increment_all_le rest at (increment identity at rows),
  )

  abbrev is_other : String → Bool
  is_other s = str_eq s other

  count_of-increment_all_lt :
      (identities : List String) (rows : List WindowRow)
      → any_of is_other identities ≡ true
      → count_of other window rows < count_of other window (increment_all identities window rows)
  unfolding increment_all
  count_of-increment_all_lt [] rows h = cc
  count_of-increment_all_lt (identity ∷ rest) rows h = ground (
    arith,
    count_of-increment identity window rows,
    count_of-increment_all_le rest window (increment identity window rows),
    count_of-increment_all_lt rest (increment identity window rows),
  )

  count_of-le-highest :
      (identities : List String) (rows : List WindowRow)
      → any_of is_other identities ≡ true
      → count_of other window rows ≤ highest_count identities window rows
  unfolding highest_count
  count_of-le-highest [] rows h = cc
  count_of-le-highest (identity ∷ rest) rows h =
      ground (arith, eq_iff identity other, count_of-le-highest rest rows)

  -- An identity that is not empty is among the distinct ones.
  kept_unique :
      (seen identities : List String)
      → str_eq other "" ≡ false
      → any_of is_other identities ≡ true
      → any_of is_other seen ≡ false
      → any_of is_other (unique_identities seen identities) ≡ true
  unfolding unique_identities
  kept_unique seen [] some_text h new = cc
  kept_unique seen (identity ∷ rest) some_text h new = elim (Bool-cases (is_other identity)) [
    | inl same ↦
        let e : identity ≡ other = (eq_iff identity other).0 same in
        let first : (str_eq identity "" || any_of (λ s. str_eq s identity) seen) ≡ false =
          rw e (rw (some_text, new) refl) in
        rw first (rw same refl)
    | inr differ ↦
        ground
          (arith, kept_unique seen rest some_text, kept_unique (identity ∷ seen) rest some_text)
  ]

-- A request: its time and the identities that it counts for.
pub record Request : Type 0 where
  pub now : ℕ
  pub identities : List String

abbrev pub was_allowed : QuotaResult → Bool
was_allowed (decided d) = d.allowed
was_allowed _ = false

module _ (other : String) (window limit : ℕ) where
  abbrev pub counts : Request → Bool
  counts r = window_at r.now == window && any_of (is_other other window) r.identities

  -- How many of the requests of the identity in the window are let through.
  unfoldable pub allowed_requests : List Request → List WindowRow → ℕ
  allowed_requests [] rows = 0
  allowed_requests (r ∷ requests) rows =
      let answer = consume_request_quota r.now r.identities limit rows in
      let later = allowed_requests requests answer.1 in
      if counts r && was_allowed answer.0 then suc later else later

  quota_of-count :
      (now : ℕ) (unique : List String) (rows : List WindowRow)
      → count_of other window rows ≤ count_of other window (quota_of now limit unique rows).1
  unfolding quota_of
  quota_of-count now [] rows = omega arith
  quota_of-count now (identity ∷ rest) rows =
      count_of-increment_all_le other window (identity ∷ rest) (window_at now) rows

  quota_of-allowed :
      (now : ℕ) (unique : List String) (rows : List WindowRow)
      → window_at now ≡ window
      → any_of (is_other other window) unique ≡ true
      → was_allowed (quota_of now limit unique rows).0 ≡ true
      → (count_of other window rows < count_of other window (quota_of now limit unique rows).1)
        × (count_of other window (quota_of now limit unique rows).1 ≤ limit)
  unfolding quota_of
  quota_of-allowed now [] rows w among ok = cc
  quota_of-allowed now (identity ∷ rest) rows w among ok =
      let rows' : List WindowRow = increment_all (identity ∷ rest) window rows in
      let ok' : leb (highest_count (identity ∷ rest) window rows') limit ≡ true = rw w at ok in
      rw w (
        count_of-increment_all_lt other window (identity ∷ rest) rows among,
        omega (
          tests,
          count_of-le-highest other window (identity ∷ rest) rows' among,
          leb→le (highest_count (identity ∷ rest) window rows') limit ok',
        ),
      )

  consume-count :
      (now : ℕ) (identities : List String) (rows : List WindowRow)
      → count_of other window rows
        ≤ count_of other window (consume_request_quota now identities limit rows).1
  unfolding consume_request_quota
  consume-count now identities rows = elim (Bool-cases (limit == 0)) [
    | inl zero_limit ↦ rw zero_limit (omega arith)
    | inr some_limit ↦ rw some_limit (quota_of-count now (unique_identities [] identities) rows)
  ]

  counts_parts :
      (r : Request)
      → counts r ≡ true
      → ((window_at r.now == window) ≡ true) × (any_of (is_other other window) r.identities ≡ true)
  counts_parts r c =
      and→both (window_at r.now == window) (any_of (is_other other window) r.identities) c

  consume-allowed :
      (r : Request) (rows : List WindowRow)
      → str_eq other "" ≡ false
      → counts r ≡ true
      → was_allowed (consume_request_quota r.now r.identities limit rows).0 ≡ true
      → (count_of other window rows
          < count_of other window (consume_request_quota r.now r.identities limit rows).1)
        × (count_of other window (consume_request_quota r.now r.identities limit rows).1 ≤ limit)
  unfolding consume_request_quota
  consume-allowed r rows some_text c ok = elim (Bool-cases (limit == 0)) [
    | inl zero_limit ↦ cc (rw zero_limit at ok)
    | inr some_limit ↦ rw some_limit (
        quota_of-allowed r.now (unique_identities [] r.identities) rows
          (==→eq (window_at r.now) window (counts_parts r c).0)
          (kept_unique other window [] r.identities some_text (counts_parts r c).1 refl)
          (rw some_limit at ok))
  ]

  allowed-le :
      (requests : List Request) (rows : List WindowRow)
      → str_eq other "" ≡ false
      → allowed_requests requests rows + count_of other window rows
        ≤ max limit (count_of other window rows)
  unfolding allowed_requests
  allowed-le [] rows some_text = omega arith
  allowed-le (r ∷ requests) rows some_text =
      let answer : QuotaResult × List WindowRow =
        consume_request_quota r.now r.identities limit rows in
      let later : _ = allowed-le requests answer.1 some_text in
      let more : _ = consume-count r.now r.identities rows in
      elim (Bool-cases (counts r && was_allowed answer.0)) [
        | inl through ↦
            let both : (counts r ≡ true) × (was_allowed answer.0 ≡ true) =
              and→both (counts r) (was_allowed answer.0) through in
            let step : _ = consume-allowed r rows some_text both.0 both.1 in
            rw through (omega (arith, later, step.0, step.1))
        | inr stopped ↦ rw stopped (omega (arith, later, more))
      ]

-- From an empty table: of any sequence of requests, those of one identity, which is not empty, in
-- one window that are let through are at most `limit`, whatever the other identities that they
-- count for.
pub allowed_requests-le :
    (identity : String) (window limit : ℕ) (requests : List Request)
    → str_eq identity "" ≡ false
    → allowed_requests identity window limit requests [] ≤ limit
unfolding count_of
allowed_requests-le identity window limit requests some_text =
    omega (arith, allowed-le identity window limit requests [] some_text)
