-- ===== src/Clients/SlidingWindow.antt =====
-- packages/source_clients/shared_rate_limit.py: `SharedSlidingWindowLimiter`. The clock and the
-- stored timestamps are in microseconds, where the code has floats of seconds. The file lock makes
-- each reservation one step, so processes that share the file are a sequence of reservations.
use procintel.Common.{
  ℕ, ◌+◌, ◌-◌, ◌≤◌, ◌<◌, ◌≡◌, refl, true, false, List, [], ◌∷◌, ◌++◌, ltb, leb, ◌==◌, if◌then◌else◌,
  arith, length, max, Bool-cases, inl, inr, ◌∙◌, tests, lt→ltb, ltb→lt,
}
use procintel.Common.Table.{
  select_where, order_by, count_where, count_where-order_by, count_where-select_where,
  length-order_by, length-select_where, count_where-append,
}

pub record Limiter : Type 0 where
  pub request_limit : ℕ
  pub window : ℕ

-- The timestamps that still count: `float(value) > now - window`, sorted.
unfoldable pub recent : Limiter → ℕ → List ℕ → List ℕ
unfolding select_where order_by
recent limiter now stored = order_by leb (select_where (λ t. ltb now (t + limiter.window)) stored)

abbrev pub earliest : List ℕ → ℕ
earliest [] = 0
earliest (t ∷ ts) = t

-- `_reserve_or_wait`: the waiting time, zero when the slot is taken, and the file after. A file
-- that holds no list is the empty list.
unfoldable pub reserve_or_wait : Limiter → ℕ → List ℕ → ℕ × List ℕ
unfolding recent
reserve_or_wait limiter now stored =
    let timestamps = recent limiter now stored in
    if ltb (length timestamps) limiter.request_limit
    then (0, timestamps ++ now ∷ [])
    else (max 10_000 (earliest timestamps + limiter.window - now), stored)

-- The reservations so far: the file, and the times at which a slot was taken.
pub record History : Type 0 where
  pub stored : List ℕ
  pub granted : List ℕ

unfoldable pub attempt : Limiter → ℕ → History → History
unfolding reserve_or_wait
attempt limiter now h =
    let reserved = reserve_or_wait limiter now h.stored in
    if reserved.0 == 0
    then record { stored = reserved.1; granted = h.granted ++ now ∷ [] }
    else record { stored = reserved.1; granted = h.granted }

unfoldable pub attempts : Limiter → List ℕ → History → History
unfolding attempt
attempts limiter [] h = h
attempts limiter (now ∷ times) h = attempts limiter times (attempt limiter now h)

-- How many of the times lie in the window that ends at `t`.
abbrev pub in_window : Limiter → ℕ → List ℕ → ℕ
in_window limiter t = count_where (λ g. ltb t (g + limiter.window))

-- At `now` and later the file counts every slot taken, and `now` sees no more than the limit.
pub record Tracks (limiter : Limiter) (now : ℕ) (h : History) : Type 0 where
  pub counts : (t : ℕ) → now ≤ t → in_window limiter t h.granted ≤ in_window limiter t h.stored
  pub within : in_window limiter now h.granted ≤ limiter.request_limit

in_window-recent :
    (limiter : Limiter) (now t : ℕ) (stored : List ℕ)
    → now ≤ t
    → in_window limiter t (recent limiter now stored) ≡ in_window limiter t stored
unfolding recent
in_window-recent limiter now t stored le =
    count_where-order_by (λ g. ltb t (g + limiter.window)) leb
      (select_where (λ g. ltb now (g + limiter.window)) stored)
    ∙ count_where-select_where (λ g. ltb t (g + limiter.window)) (λ g. ltb now (g + limiter.window))
        stored (λ g h. lt→ltb now (g + limiter.window) (omega tests))

length-recent :
    (limiter : Limiter) (now : ℕ) (stored : List ℕ)
    → length (recent limiter now stored) ≡ in_window limiter now stored
unfolding recent
length-recent limiter now stored =
    length-order_by leb (select_where (λ g. ltb now (g + limiter.window)) stored)
    ∙ length-select_where (λ g. ltb now (g + limiter.window)) stored

in_window_later :
    (limiter : Limiter) (now t : ℕ) (times : List ℕ)
    → now ≤ t
    → in_window limiter t times ≤ in_window limiter now times
unfolding count_where
in_window_later limiter now t [] le = omega arith
in_window_later limiter now t (g ∷ times) le =
    ground (arith, in_window_later limiter now t times le)

in_window_one : (limiter : Limiter) (now t : ℕ) → in_window limiter t (now ∷ []) ≤ 1
unfolding count_where
in_window_one limiter now t = ground arith

attempt_taken :
    (limiter : Limiter) (now : ℕ) (h : History)
    → ltb (length (recent limiter now h.stored)) limiter.request_limit ≡ true
    → attempt limiter now h
      ≡ record { stored = recent limiter now h.stored ++ now ∷ []; granted = h.granted ++ now ∷ [] }
unfolding attempt
attempt_taken limiter now h room = rw room refl

wait_positive : (wait : ℕ) (h h' : History) → (if max 10_000 wait == 0 then h' else h) ≡ h
wait_positive wait h h' = ground arith

attempt_refused :
    (limiter : Limiter) (now : ℕ) (h : History)
    → ltb (length (recent limiter now h.stored)) limiter.request_limit ≡ false
    → attempt limiter now h ≡ h
unfolding attempt
attempt_refused limiter now h full = rw full (
    wait_positive (earliest (recent limiter now h.stored) + limiter.window - now) h
      (record { stored = h.stored; granted = h.granted ++ now ∷ [] }))

module _ (limiter : Limiter) (before now : ℕ) (h : History) (le : before ≤ now)
    (tr : Tracks limiter before h) where
  open tr use {counts, within}

  taken-Tracks :
      length (recent limiter now h.stored) < limiter.request_limit
      → Tracks limiter now (record {
        stored = recent limiter now h.stored ++ now ∷ [];
        granted = h.granted ++ now ∷ [];
      })
  taken-Tracks room = record {
    counts = λ t later. omega (
      arith,
      counts t (omega arith),
      in_window-recent limiter now t h.stored later,
      count_where-append (λ g. ltb t (g + limiter.window)) h.granted (now ∷ []),
      count_where-append (λ g. ltb t (g + limiter.window)) (recent limiter now h.stored) (now ∷ []),
    );
    within = omega (
      arith,
      counts now le,
      length-recent limiter now h.stored,
      in_window_one limiter now now,
      count_where-append (λ g. ltb now (g + limiter.window)) h.granted (now ∷ []),
    );
  }

  kept-Tracks : Tracks limiter now h
  kept-Tracks = record {
    counts = λ t later. counts t (omega arith);
    within = omega (arith, within, in_window_later limiter before now h.granted le);
  }

  attempt-Tracks : Tracks limiter now (attempt limiter now h)
  attempt-Tracks =
      elim (Bool-cases (ltb (length (recent limiter now h.stored)) limiter.request_limit)) [
        | inl room ↦ rw (attempt_taken limiter now h room) (taken-Tracks (ltb→lt _ _ room))
        | inr full ↦ rw (attempt_refused limiter now h full) kept-Tracks
      ]

-- The times come in order, the first not before `now`.
abbrev pub InOrder : ℕ → List ℕ → Type 0
InOrder now [] = Unit
InOrder now (t ∷ times) = (now ≤ t) × InOrder t times

-- The last of the times.
abbrev pub last_of : ℕ → List ℕ → ℕ
last_of now [] = now
last_of now (t ∷ times) = last_of t times

attempts-Tracks :
    (limiter : Limiter) (now : ℕ) (times : List ℕ) (h : History)
    → InOrder now times
    → Tracks limiter now h
    → Tracks limiter (last_of now times) (attempts limiter times h)
unfolding attempts
attempts-Tracks limiter now [] h o tr = tr
attempts-Tracks limiter now (t ∷ times) h o tr =
    attempts-Tracks limiter t times (attempt limiter t h) o.1
      (attempt-Tracks limiter now t h o.0 tr)

-- From an empty file, and with a clock that does not go back: however many processes ask, and
-- however often, the window that ends at the last attempt never holds more granted requests than
-- the limit.
pub never_over_limit :
    (limiter : Limiter) (times : List ℕ)
    → InOrder 0 times
    → in_window limiter
        (last_of 0 times)
        (attempts limiter times (record { stored = []; granted = [] })).granted
      ≤ limiter.request_limit
never_over_limit limiter times o =
    (attempts-Tracks limiter 0 times (record { stored = []; granted = [] }) o
      (record {
        counts = λ t later. omega arith;
        within = unfold count_where in omega arith;
      })).within
