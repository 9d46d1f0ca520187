-- ===== src/Analytics/Scoring/Recompute.antt =====
-- services/analytics/opportunity_scoring.py: the table after `score_opportunities_for_tenant`.
use procintel.Common.{
  ℕ, ◌≤◌, ◌≡◌, refl, ap, ◌∙◌, Bool, true, false, not, ◌||◌, Option, none, some, List, [], ◌∷◌, ◌++◌,
  arith, if◌then◌else◌, Bool-cases, inl, inr, ◌⊎◌, All, All-map, All-both, any_of, ◌==◌, ==→eq,
  and→both,
}
use procintel.Common.Table.{select_where, All-select_where, All-update_to, All-true}
use procintel.Alerts.Matching.{Texts, is_empty}
use procintel.Analytics.Score.{Candidate, Score}
use procintel.Analytics.Scoring.{
  ScoreRow, Run, row_of, same_score, rescored, upsert_score, write_scores, is_kept,
  score_opportunities, candidate_score, feedback_of, is_irrelevant,
}
use procintel.Analytics.Scoring.Choice.{Writable, candidate_score-Writable}

-- A row of the run: not marked as irrelevant, at most 99.25 points, of the current profile.
pub record IsFresh (run : Run) (row : ScoreRow) : Type 0 where
  pub allowed : is_irrelevant (feedback_of row.process_id run.feedback) ≡ false
  pub total_le : row.score.total_score ≤ 9_925
  pub current : row.profile_version ≡ run.profile_version
  pub dated : row.computed_at ≡ run.now

abbrev pub OfOtherOrFresh : Run → ScoreRow → Type 0
OfOtherOrFresh run row = ((row.tenant_id == run.tenant_id) ≡ false) ⊎ IsFresh run row

module _ (texts : Texts) (run : Run) where
  -- The rows of the processes of `w` are of the run.
  abbrev Covered : (ℕ → Bool) → ScoreRow → Type 0
  Covered w row = (w row.process_id ≡ false) ⊎ OfOtherOrFresh run row

  abbrev with_one : (ℕ → Bool) → ℕ → ℕ → Bool
  with_one w p q = w q || p == q

  All-append_one {κ} :
      (P : ScoreRow → Type κ) (rows : List ScoreRow) (row : ScoreRow)
      → All P rows
      → P row
      → All P (rows ++ row ∷ [])
  All-append_one P [] row h p = (p, tt)
  All-append_one P (r ∷ rows) row h p = (h.0, All-append_one P rows row h.1 p)

  none_of :
      (p : ScoreRow → Bool) (rows : List ScoreRow)
      → any_of p rows ≡ false
      → All (λ row. p row ≡ false) rows
  none_of p [] h = tt
  none_of p (row ∷ rows) h = (ground arith, none_of p rows (ground arith))

  module _ (candidate : Candidate) (score : Score)
      (writable : Writable texts candidate run.as_of run.feedback (some score)) where
    abbrev new : ScoreRow
    new = row_of run candidate score

    new-IsFresh : IsFresh run new
    new-IsFresh = record {
      allowed = writable.0;
      total_le = writable.1;
      current = refl;
      dated = refl;
    }

    rescored-IsFresh : (row : ScoreRow) → same_score new row ≡ true → IsFresh run (rescored new row)
    rescored-IsFresh row same =
        let e : row.process_id ≡ candidate.process_id =
          ==→eq row.process_id candidate.process_id
            (and→both (row.process_id == candidate.process_id) _ same).0 in
        record {
          allowed = ap (λ p. is_irrelevant (feedback_of p run.feedback)) e ∙ writable.0;
          total_le = writable.1;
          current = refl;
          dated = refl;
        }

    -- A row that is not replaced is of another process or of another tenant.
    kept-Covered :
        (w : ℕ → Bool) (row : ScoreRow)
        → same_score new row ≡ false
        → Covered w row
        → Covered (with_one w candidate.process_id) row
    kept-Covered w row apart (inr fine) = inr fine
    kept-Covered w row apart (inl out) = elim (Bool-cases (row.tenant_id == run.tenant_id)) [
      | inl theirs ↦ inl (ground arith)
      | inr foreign ↦ inr (inl foreign)
    ]

    upsert-Covered :
        (w : ℕ → Bool) (table : List ScoreRow)
        → All (Covered w) table
        → All (Covered (with_one w candidate.process_id)) (upsert_score new table)
    unfolding upsert_score
    upsert-Covered w table h = elim (Bool-cases (any_of (same_score new) table)) [
      | inl some_row ↦ rw some_row (
          All-update_to (Covered w) (Covered (with_one w candidate.process_id)) (same_score new)
            (rescored new) table (λ row same _. inr (inr (rescored-IsFresh row same)))
            (kept-Covered w) h)
      | inr no_row ↦ rw no_row (
          All-append_one (Covered (with_one w candidate.process_id)) table new
            (All-both (λ row. same_score new row ≡ false) (Covered w)
              (Covered (with_one w candidate.process_id)) table (kept-Covered w)
              (none_of (same_score new) table no_row) h)
            (inr (inr new-IsFresh)))
    ]

  -- The rows of the processes of `w` and of the processes written are of the run.
  abbrev Result : (ℕ → Bool) → List ℕ × List ScoreRow → Type 0
  Result w answer = All (Covered (λ p. w p || any_of (λ q. q == p) answer.0)) answer.1

  Covered-same :
      (v w : ℕ → Bool) (rows : List ScoreRow)
      → ((p : ℕ) → w p ≡ v p)
      → All (Covered v) rows
      → All (Covered w) rows
  Covered-same v w rows same h =
      All-map (Covered v) (Covered w) rows
        (λ row c. elim c [ inl out ↦ inl (same row.process_id ∙ out) | inr fine ↦ inr fine ]) h

  or_end : (a : Bool) → (a || false) ≡ a
  or_end a = ground arith

  or_assoc : (a b c : Bool) → (a || (b || c)) ≡ ((a || b) || c)
  or_assoc a b c = ground arith

  one_written :
      (candidate : Candidate) (candidates : List Candidate) (w : ℕ → Bool) (table : List ScoreRow)
      (found : Option Score)
      → Writable texts candidate run.as_of run.feedback found
      → ((v : ℕ → Bool) (table' : List ScoreRow)
          → All (Covered v) table'
          → Result v (write_scores texts run candidates table'))
      → All (Covered w) table
      → Result w (elim found [
        | none ↦ write_scores texts run candidates table
        | some score ↦
            let rest =
              write_scores texts run candidates (upsert_score (row_of run candidate score) table) in
            (candidate.process_id ∷ rest.0, rest.1)
      ])
  one_written candidate candidates w table none writable later h = later w table h
  one_written candidate candidates w table (some score) writable later h =
      let table' : List ScoreRow = upsert_score (row_of run candidate score) table in
      let rest : List ℕ × List ScoreRow = write_scores texts run candidates table' in
      Covered-same (λ p. with_one w candidate.process_id p || any_of (λ q. q == p) rest.0)
        (λ p. w p || any_of (λ q. q == p) (candidate.process_id ∷ rest.0)) rest.1
        (λ p. or_assoc (w p) (candidate.process_id == p) (any_of (λ q. q == p) rest.0))
        (later (with_one w candidate.process_id) table'
          (upsert-Covered candidate score writable w table h))

  write_scores-Covered :
      (candidates : List Candidate) (w : ℕ → Bool) (table : List ScoreRow)
      → All (Covered w) table
      → Result w (write_scores texts run candidates table)
  unfolding write_scores
  write_scores-Covered [] w table h = Covered-same w (λ p. w p || false) table (λ p. or_end (w p)) h
  write_scores-Covered (candidate ∷ candidates) w table h =
      one_written candidate candidates w table
        (candidate_score texts run.rules run.feedback run.as_of candidate)
        (candidate_score-Writable texts candidate run.as_of run.rules run.feedback)
        (write_scores-Covered candidates) h

  not_ours : (ours w : Bool) → w ≡ false → (not ours || w) ≡ true → ours ≡ false
  not_ours ours w out kept = ground arith

  Covered-nothing : (table : List ScoreRow) → All (Covered (λ p. false)) table
  Covered-nothing table =
      All-map (λ row. Unit {0}) (Covered (λ p. false)) table (λ row _. inl refl) (All-true table)

  kept_fresh :
      (written : List ℕ) (table : List ScoreRow)
      → All (Covered (λ p. any_of (λ q. q == p) written)) table
      → All (OfOtherOrFresh run) (select_where (is_kept texts run.tenant_id written) table)
  kept_fresh written table h =
      All-select_where (Covered (λ p. any_of (λ q. q == p) written)) (OfOtherOrFresh run)
        (is_kept texts run.tenant_id written) table
        (λ row kept c. elim c [
          | inr fine ↦ fine
          | inl out ↦ inl (not_ours (row.tenant_id == run.tenant_id) _ out kept)
        ])
        h

  chosen :
      (b : Bool) (kept table : List ScoreRow)
      → b ≡ true
      → All (OfOtherOrFresh run) kept
      → All (OfOtherOrFresh run) (if b then kept else table)
  chosen true kept table e h = h
  chosen false kept table e h = cc

-- After a run that clears the existing rows, every row of the tenant has the time and the profile
-- version of the run, its process is not marked as irrelevant, and its total is at most 99.25.
pub recompute_leaves_fresh :
    (texts : Texts) (run : Run) (candidates : List Candidate) (table : List ScoreRow)
    → run.clear_existing ≡ true
    → All (OfOtherOrFresh run) (score_opportunities texts run candidates table).1
unfolding score_opportunities
recompute_leaves_fresh texts run candidates table clear = elim (Bool-cases (is_empty run.rules)) [
  | inl no_rules ↦ rw no_rules (
      chosen texts run run.clear_existing _ table clear
        (kept_fresh texts run [] table (Covered-nothing texts run table)))
  | inr some_rules ↦ rw some_rules (
      chosen texts run run.clear_existing _ (write_scores texts run candidates table).1 clear (
        kept_fresh texts run (write_scores texts run candidates table).0
          (write_scores texts run candidates table).1
          (write_scores-Covered texts run candidates (λ p. false) table
            (Covered-nothing texts run table))))
]
