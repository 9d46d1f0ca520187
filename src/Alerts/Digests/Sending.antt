-- ===== src/Alerts/Digests/Sending.antt =====
-- services/alerts/digests.py: which digests the sweeps send.
use procintel.Common.{
  ℕ, ◌≤◌, ◌≡◌, refl, ap, sym, ◌∙◌, false, Option, some, none, String, List, [], ◌∷◌, ◌==◌, arith,
  Bool-cases, inl, inr, length,
}
use procintel.Common.Table.{update_where, count_where, count_where-append}
use procintel.Alerts.DigestRuns.{
  RunKey, Period, DigestRun, Digest, Rule, AlertEvent, Outside, World, same_run, claim_digest_run,
  is_due, is_sent,
}
use procintel.Alerts.Digests.{
  claimed_delivery, deliver_run, record_outcome, process_rule, process_rules, process_due_digests,
  digest_of, digest_rules, period_of, local_now, leased_as, delivered_run,
}
use procintel.Alerts.Digests.Keys.{same_run-eq}
use procintel.Alerts.Digests.Lease.{
  sent_mark, mark_of_le, IsLeased, claim-other, claim-refused, claim-granted, mark-delivered_le,
  mark-delivered, mark-failed_le,
}

-- How often the digest of a period was sent.
abbrev pub times_sent : RunKey → List Digest → ℕ
times_sent k = count_where (λ d. same_run d.key k)

-- No digest was sent more often than its run says.
abbrev pub IsRecorded : World → Type 0
IsRecorded world = (k : RunKey) → times_sent k world.sent ≤ sent_mark k world.runs

times_sent_one : (k : RunKey) (d : Digest) → times_sent k (d ∷ []) ≤ 1
unfolding count_where
times_sent_one k d = ground arith

times_sent_other : (k : RunKey) (d : Digest) → same_run d.key k ≡ false → times_sent k (d ∷ []) ≡ 0
unfolding count_where
times_sent_other k d apart = rw apart refl

module _ (out : Outside) (now : ℕ) (c : ℕ × ℕ) (digest : Digest) (runs : List DigestRun)
    (sent : List Digest) (rec : (k : RunKey) → times_sent k sent ≤ sent_mark k runs)
    (unsent : times_sent digest.key sent ≡ 0) (lease : IsLeased digest.key c.0 runs) where
  outcome-IsRecorded :
      (answer : Option String)
      → IsRecorded (record_outcome now c digest (record { runs = runs; sent = sent }) answer)
  unfolding record_outcome
  outcome-IsRecorded none k =
      let runs' : List DigestRun = update_where (leased_as c.0) (delivered_run now) runs in
      let more : _ = count_where-append (λ d. same_run d.key k) sent (digest ∷ []) in
      elim (Bool-cases (same_run digest.key k)) [
        | inl ours ↦
            let e : digest.key ≡ k = same_run-eq digest.key k ours in
            omega (
              arith,
              more,
              times_sent_one k digest,
              ap (λ l. times_sent l sent) (sym e) ∙ unsent,
              ap (λ l. sent_mark l runs') (sym e) ∙ mark-delivered c.0 now digest.key runs lease,
            )
        | inr other ↦
            omega (
              arith,
              more,
              times_sent_other k digest other,
              rec k,
              mark-delivered_le c.0 now k runs,
            )
      ]
  outcome-IsRecorded (some error) k = omega (arith, rec k, mark-failed_le c.0 now c.1 error k runs)

  deliver_run-IsRecorded :
      IsRecorded (deliver_run out now c digest (record { runs = runs; sent = sent }))
  unfolding deliver_run
  deliver_run-IsRecorded k = elim (Bool-cases (length digest.events == 0)) [
    | inl nothing ↦ rw nothing (omega (arith, rec k, mark-delivered_le c.0 now k runs))
    | inr some_events ↦ rw some_events (outcome-IsRecorded (out.raised digest) k)
  ]

module _ (out : Outside) (now : ℕ) (digest : Digest) (runs runs' : List DigestRun)
    (sent : List Digest) (rec : (k : RunKey) → times_sent k sent ≤ sent_mark k runs) where
  claimed-IsRecorded :
      (answer : Option (ℕ × ℕ))
      → (answer ≡ none → runs' ≡ runs)
      → ((c : ℕ × ℕ)
          → answer ≡ some c
          → (sent_mark digest.key runs ≡ 0) × IsLeased digest.key c.0 runs')
      → ((k : RunKey) → same_run digest.key k ≡ false → sent_mark k runs' ≡ sent_mark k runs)
      → IsRecorded (claimed_delivery out now digest sent (answer, runs')).1
  unfolding claimed_delivery
  claimed-IsRecorded none refused granted others k =
      omega (arith, rec k, ap (sent_mark k) (refused refl))
  claimed-IsRecorded (some c) refused granted others k =
      let lease : _ = granted c refl in
      let unsent : times_sent digest.key sent ≡ 0 = omega (arith, rec digest.key, lease.0) in
      deliver_run-IsRecorded out now c digest runs' sent
        (λ l. elim (Bool-cases (same_run digest.key l)) [
          | inl ours ↦
              omega
                (arith, ap (λ m. times_sent m sent) (sym (same_run-eq digest.key l ours)) ∙ unsent)
          | inr other ↦ omega (arith, rec l, others l other)
        ])
        unsent lease.1 k

process_rule-IsRecorded :
    (out : Outside) (events : List AlertEvent) (now : ℕ) (rule : Rule) (world : World)
    → IsRecorded world
    → IsRecorded (process_rule out events now rule world).1
unfolding process_rule
process_rule-IsRecorded out events now rule world rec =
    let digest : Digest = digest_of out events rule now world.runs in
    let id : ℕ = out.fresh now digest.key in
    let p : Period = period_of rule digest in
    elim (Bool-cases (is_due rule.schedule (local_now out rule now) rule.digest_time)) [
      | inl due ↦ rw due (
          claimed-IsRecorded out now digest world.runs
            (claim_digest_run id digest.key p now world.runs).1 world.sent rec
            (claim_digest_run id digest.key p now world.runs).0
            (claim-refused id now p digest.key world.runs)
            (λ c. claim-granted id now p digest.key c world.runs)
            (λ k. claim-other id now p digest.key k world.runs))
      | inr early ↦ rw early rec
    ]

process_rules-IsRecorded :
    (out : Outside) (events : List AlertEvent) (now : ℕ) (rules : List Rule) (world : World)
    → IsRecorded world
    → IsRecorded (process_rules out events now rules world).1
unfolding process_rules
process_rules-IsRecorded out events now [] world rec = rec
process_rules-IsRecorded out events now (rule ∷ rules) world rec =
    process_rules-IsRecorded out events now rules (process_rule out events now rule world).1
      (process_rule-IsRecorded out events now rule world rec)

-- One sweep: the clock, and the rules and events that it finds.
pub record Sweep : Type 0 where
  pub now : ℕ
  pub rules : List Rule
  pub events : List AlertEvent

unfoldable pub sweeps : Outside → List Sweep → World → World
unfolding process_due_digests
sweeps out [] world = world
sweeps out (s ∷ rest) world =
    sweeps out rest (process_due_digests out s.rules s.events s.now world).1

sweeps-IsRecorded :
    (out : Outside) (passes : List Sweep) (world : World)
    → IsRecorded world
    → IsRecorded (sweeps out passes world)
unfolding sweeps process_due_digests
sweeps-IsRecorded out [] world rec = rec
sweeps-IsRecorded out (s ∷ rest) world rec =
    sweeps-IsRecorded out rest (process_rules out s.events s.now (digest_rules s.rules) world).1
      (process_rules-IsRecorded out s.events s.now (digest_rules s.rules) world rec)

sent_mark_le : (k : RunKey) (runs : List DigestRun) → sent_mark k runs ≤ 1
unfolding sent_mark
sent_mark_le k [] = omega arith
sent_mark_le k (run ∷ runs) = elim (Bool-cases (same_run run.key k)) [
  | inl ours ↦ rw ours (mark_of_le (is_sent run.status))
  | inr other ↦ rw other (sent_mark_le k runs)
]

-- The channel accepts the digest of a rule for one local period at most once, whatever sweeps run,
-- at whatever times and however often the channel raises in between. The tables start empty.
pub sent_at_most_once :
    (out : Outside) (passes : List Sweep) (k : RunKey)
    → times_sent k (sweeps out passes (record { runs = []; sent = [] })).sent ≤ 1
sent_at_most_once out passes k = omega (
  arith,
  sweeps-IsRecorded out passes (record { runs = []; sent = [] })
      (λ l. unfold count_where in omega arith) k,
  sent_mark_le k (sweeps out passes (record { runs = []; sent = [] })).runs,
)
