-- ===== src/Alerts/Digests/Lease.antt =====
-- services/alerts/digests.py: what `_claim_digest_run` does to the run of a period.
use procintel.Common.{
  ℕ, ◌+◌, ◌≤◌, ◌≡◌, refl, ap, Bool, true, false, String, Option, some, none, List, [], ◌∷◌, ltb,
  ◌==◌, eq→==, if◌then◌else◌, arith, Bool-cases, inl, inr, and→both,
}
use procintel.Common.Table.{update_where}
use procintel.Alerts.DigestRuns.{
  RunKey, DigestRun, DigestStatus, Period, same_run, can_reclaim, is_reclaimable, claim_digest_run,
  is_running, is_sent, digest_lease_timeout,
}
use procintel.Alerts.Digests.{leased_as, delivered_run, failed_run}
use procintel.Alerts.Digests.Keys.{same_run_refl, same_run-other}

abbrev pub mark_of : Bool → ℕ
mark_of true = 1
mark_of false = 0

-- One if the run under the key is marked as sent, and zero if it is not, or there is none.
unfoldable pub sent_mark : RunKey → List DigestRun → ℕ
unfolding is_sent
sent_mark k [] = 0
sent_mark k (run ∷ runs) =
    if same_run run.key k then mark_of (is_sent run.status) else sent_mark k runs

-- The run under the key is leased under the id.
abbrev pub IsLeased : RunKey → ℕ → List DigestRun → Type 0
IsLeased k id [] = ⊥
IsLeased k id (run ∷ runs) =
    if same_run run.key k
    then (run.id ≡ id) × (run.status ≡ DigestStatus.running)
    else IsLeased k id runs

reclaimable-not_sent :
    (now : ℕ) (status : DigestStatus) (next last : Option ℕ)
    → is_reclaimable now status next last ≡ true
    → is_sent status ≡ false
unfolding is_reclaimable is_sent
reclaimable-not_sent now DigestStatus.pending next last h = refl
reclaimable-not_sent now DigestStatus.running next last h = refl
reclaimable-not_sent now DigestStatus.failed next last h = refl
reclaimable-not_sent now DigestStatus.delivered next last h = cc
reclaimable-not_sent now DigestStatus.partly next last h = cc

running-not_sent : (status : DigestStatus) → is_running status ≡ true → is_sent status ≡ false
unfolding is_running is_sent
running-not_sent DigestStatus.pending h = refl
running-not_sent DigestStatus.running h = refl
running-not_sent DigestStatus.failed h = refl
running-not_sent DigestStatus.delivered h = cc
running-not_sent DigestStatus.partly h = cc

pub mark_of_le : (b : Bool) → mark_of b ≤ 1
mark_of_le true = omega arith
mark_of_le false = omega arith

fresh_lease : (now now' lease : ℕ) → now' ≤ now + lease → ltb (now + lease) now' ≡ false
fresh_lease now now' lease le = ground arith

-- The id in an answer of `_claim_digest_run`.
abbrev claimed_id : Option (ℕ × ℕ) → ℕ
claimed_id none = 0
claimed_id (some c) = c.0

module _ (id now : ℕ) (p : Period) where
  pub claim-other :
      (key k : RunKey) (runs : List DigestRun)
      → same_run key k ≡ false
      → sent_mark k (claim_digest_run id key p now runs).1 ≡ sent_mark k runs
  unfolding claim_digest_run sent_mark
  claim-other key k [] apart = rw apart refl
  claim-other key k (run ∷ runs) apart = elim (Bool-cases (same_run run.key key)) [
    | inl ours ↦ rw ours (elim (Bool-cases (can_reclaim now run)) [
      | inl free ↦ rw free (rw (same_run-other k key run.key apart ours) refl)
      | inr held ↦ rw held refl
    ])
    | inr other ↦ rw other (rw (claim-other key k runs apart) refl)
  ]

  pub claim-refused :
      (key : RunKey) (runs : List DigestRun)
      → (claim_digest_run id key p now runs).0 ≡ none
      → (claim_digest_run id key p now runs).1 ≡ runs
  unfolding claim_digest_run
  claim-refused key [] h = cc
  claim-refused key (run ∷ runs) h = elim (Bool-cases (same_run run.key key)) [
    | inl ours ↦ elim (Bool-cases (can_reclaim now run)) [
      | inl free ↦ cc (rw free at rw ours at h)
      | inr held ↦ rw ours (rw held refl)
    ]
    | inr other ↦ rw other (ap (◌∷◌ run) (claim-refused key runs (rw other at h)))
  ]

  pub claim-granted :
      (key : RunKey) (c : ℕ × ℕ) (runs : List DigestRun)
      → (claim_digest_run id key p now runs).0 ≡ some c
      → (sent_mark key runs ≡ 0) × IsLeased key c.0 (claim_digest_run id key p now runs).1
  unfolding claim_digest_run sent_mark
  claim-granted key c [] h = rw (same_run_refl key) (refl, (ap claimed_id h, refl))
  claim-granted key c (run ∷ runs) h = elim (Bool-cases (same_run run.key key)) [
    | inl ours ↦ elim (Bool-cases (can_reclaim now run)) [
      | inl free ↦ rw ours (
          rw free (
            rw ours (
              ap mark_of
                  (reclaimable-not_sent now run.status run.next_retry_at run.last_attempt_at free),
              (ap claimed_id (rw free at rw ours at h), refl),
            )))
      | inr held ↦ cc (rw held at rw ours at h)
    ]
    | inr other ↦ rw other (rw other (claim-granted key c runs (rw other at h)))
  ]

module _ (id now : ℕ) where
  pub mark-delivered_le :
      (k : RunKey) (runs : List DigestRun)
      → sent_mark k runs ≤ sent_mark k (update_where (leased_as id) (delivered_run now) runs)
  unfolding sent_mark update_where is_sent
  mark-delivered_le k [] = omega arith
  mark-delivered_le k (run ∷ runs) = elim (Bool-cases (leased_as id run)) [
    | inl hit ↦ rw hit (elim (Bool-cases (same_run run.key k)) [
      | inl ours ↦ rw ours (mark_of_le (is_sent run.status))
      | inr other ↦ rw other (mark-delivered_le k runs)
    ])
    | inr miss ↦ rw miss (elim (Bool-cases (same_run run.key k)) [
      | inl ours ↦ rw ours (omega arith)
      | inr other ↦ rw other (mark-delivered_le k runs)
    ])
  ]

  pub mark-delivered :
      (k : RunKey) (runs : List DigestRun)
      → IsLeased k id runs
      → sent_mark k (update_where (leased_as id) (delivered_run now) runs) ≡ 1
  unfolding sent_mark update_where is_sent is_running
  mark-delivered k [] h = absurd h
  mark-delivered k (run ∷ runs) h = elim (Bool-cases (same_run run.key k)) [
    | inl ours ↦
        let lease : (run.id ≡ id) × (run.status ≡ DigestStatus.running) = rw ours at h in
        let hit : leased_as id run ≡ true = rw lease.1 (rw (eq→== run.id id lease.0) refl) in
        rw hit (rw ours refl)
    | inr other ↦ elim (Bool-cases (leased_as id run)) [
      | inl hit ↦ rw hit (rw other (mark-delivered k runs (rw other at h)))
      | inr miss ↦ rw miss (rw other (mark-delivered k runs (rw other at h)))
    ]
  ]

  pub mark-failed_le :
      (attempts : ℕ) (error : String) (k : RunKey) (runs : List DigestRun)
      → sent_mark k runs
        ≤ sent_mark k (update_where (leased_as id) (failed_run now attempts error) runs)
  unfolding sent_mark update_where is_sent
  mark-failed_le attempts error k [] = omega arith
  mark-failed_le attempts error k (run ∷ runs) = elim (Bool-cases (leased_as id run)) [
    | inl hit ↦ rw hit (elim (Bool-cases (same_run run.key k)) [
      | inl ours ↦
          rw ours (rw (running-not_sent run.status (and→both (run.id == id) _ hit).1) (omega arith))
      | inr other ↦ rw other (mark-failed_le attempts error k runs)
    ])
    | inr miss ↦ rw miss (elim (Bool-cases (same_run run.key k)) [
      | inl ours ↦ rw ours (omega arith)
      | inr other ↦ rw other (mark-failed_le attempts error k runs)
    ])
  ]

module _ (id id' now now' : ℕ) (p p' : Period) (key : RunKey) where
  -- Once a claim of a period is granted, a second claim of it on the table that the first leaves,
  -- no later than the lease time of fifteen minutes after it, is refused.
  pub claim_is_exclusive :
      (c : ℕ × ℕ) (runs : List DigestRun)
      → (claim_digest_run id key p now runs).0 ≡ some c
      → now' ≤ now + digest_lease_timeout
      → (claim_digest_run id' key p' now' (claim_digest_run id key p now runs).1).0 ≡ none
  unfolding claim_digest_run is_reclaimable
  claim_is_exclusive c [] h le =
      rw (same_run_refl key) (rw (fresh_lease now now' digest_lease_timeout le) refl)
  claim_is_exclusive c (run ∷ runs) h le = elim (Bool-cases (same_run run.key key)) [
    | inl ours ↦ elim (Bool-cases (can_reclaim now run)) [
      | inl free ↦
          rw ours (rw free (rw ours (rw (fresh_lease now now' digest_lease_timeout le) refl)))
      | inr held ↦ cc (rw held at rw ours at h)
    ]
    | inr other ↦ rw other (rw other (claim_is_exclusive c runs (rw other at h) le))
  ]
