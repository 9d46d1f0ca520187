-- ===== src/Entities/Review/Requests.antt =====
-- apps/api/routers/entity_review.py: any sequence of reviews and undos.
use procintel.Common.{
  ℕ, suc, ◌≤◌, ◌≡◌, refl, Bool, true, false, Option, none, some, String, List, [], ◌∷◌, ◌==◌, arith,
  All, Bool-cases, inl, inr, not, if◌then◌else◌,
}
use procintel.Common.Table.{All-update_where}
use procintel.Entities.Review.{
  Merge, Request, Action, World, find_by_id, both_active, sides, merge_when, merge_candidate,
  review_pending, Answer, identifier_conflict, already_reviewed, already_reverted, ok, reviewed,
  rejected_candidate, review_found, review_candidate, split_entities, undo_found, undo_merge,
  is_reverted,
}
use procintel.Entities.Review.Rows.{IsActive, HoldsOf, found_only, both_active-IsActive}
use procintel.Entities.Review.Forest.{
  TwoSides, IsForest, IsForest-later, merge_entities-IsForest, split_entities-IsForest,
}
use procintel.Entities.Candidates.{Candidate, CandidateStatus, is_pending}

-- A request to review a candidate or to undo a merge.
pub data Command : Type 0 where
  review : (q : Request) → Action → (notes : String) → (target : ℕ) → Command
  undo : (q : Request) → (target : ℕ) → Command

abbrev pub time_of : Command → ℕ
time_of (review q action notes target) = q.now
time_of (undo q target) = q.now

unfoldable pub run_command : Command → World → World
unfolding review_candidate undo_merge
run_command (review q action notes target) w = (review_candidate q action notes target w).1
run_command (undo q target) w = (undo_merge q target w).1

unfoldable pub run_commands : List Command → World → World
unfolding run_command
run_commands [] w = w
run_commands (c ∷ cs) w = run_commands cs (run_command c w)

-- Each command comes at a time of its own, after the clock.
abbrev pub InOrder : ℕ → List Command → Type 0
InOrder clock [] = Unit
InOrder clock (c ∷ cs) = (clock ≤ time_of c) × InOrder (suc (time_of c)) cs

sides_differ :
    (action : Action) (c : Candidate)
    → TwoSides c
    → ((sides action c).0 == (sides action c).1) ≡ false
sides_differ Action.merge_a_into_b c two = ground arith
sides_differ Action.merge_b_into_a c two = two
sides_differ Action.reject c two = two

merge_when-IsForest :
    (clock : ℕ) (q : Request) (notes : String) (c : Candidate) (surviving_id merged_id : ℕ)
    (w : World) (both : Option Bool)
    → clock ≤ q.now
    → (surviving_id == merged_id) ≡ false
    → (both ≡ some true → All (λ e. (e.id == surviving_id) ≡ true → IsActive e) w.entities)
    → IsForest clock w
    → IsForest (suc q.now) (merge_when q notes c (surviving_id, merged_id) w both).1
merge_when-IsForest clock q notes c surviving_id merged_id w none le other free forest =
    IsForest-later clock (suc q.now) w (omega arith) forest
merge_when-IsForest clock q notes c surviving_id merged_id w (some false) le other free forest =
    IsForest-later clock (suc q.now) w (omega arith) forest
merge_when-IsForest clock q notes c surviving_id merged_id w (some true) le other free forest =
    merge_entities-IsForest clock q notes c surviving_id merged_id w le other (free refl) forest

-- A guard that answers with an error leaves the world as it was.
guarded-IsForest :
    (clock later : ℕ) (b : Bool) (w : World) (answer : Answer) (result : Answer × World)
    → clock ≤ later
    → IsForest clock w
    → IsForest later result.1
    → IsForest later (if b then (answer, w) else result).1
guarded-IsForest clock later true w answer result le forest h =
    IsForest-later clock later w le forest
guarded-IsForest clock later false w answer result le forest h = h

merge_candidate-IsForest :
    (clock : ℕ) (q : Request) (action : Action) (notes : String) (c : Candidate) (w : World)
    → clock ≤ q.now
    → TwoSides c
    → IsForest clock w
    → IsForest (suc q.now) (merge_candidate q action notes c w).1
unfolding merge_candidate
merge_candidate-IsForest clock q action notes c w le two forest =
    guarded-IsForest clock (suc q.now) c.score_breakdown.identifier_conflict w identifier_conflict
      (merge_when q notes c (sides action c) w (
        both_active (find_by_id (λ e. e.id) (sides action c).1 w.entities)
          (find_by_id (λ e. e.id) (sides action c).0 w.entities)))
      (omega arith) forest
      (merge_when-IsForest clock q notes c (sides action c).0 (sides action c).1 w
        (both_active (find_by_id (λ e. e.id) (sides action c).1 w.entities)
          (find_by_id (λ e. e.id) (sides action c).0 w.entities))
        le (sides_differ action c two)
        (λ both.
          found_only (λ e. e.id) IsActive (sides action c).0 w.entities forest.keys
            (both_active-IsActive (find_by_id (λ e. e.id) (sides action c).1 w.entities)
              (find_by_id (λ e. e.id) (sides action c).0 w.entities) both).1)
        forest)

found-TwoSides :
    (target : ℕ) (cs : List Candidate)
    → All TwoSides cs
    → HoldsOf (λ c. c.id) TwoSides (find_by_id (λ c. c.id) target cs)
unfolding find_by_id
found-TwoSides target [] h = tt
found-TwoSides target (c ∷ cs) h = elim (Bool-cases (c.id == target)) [
  | inl e ↦ rw e h.0
  | inr e ↦ rw e (found-TwoSides target cs h.1)
]

review_pending-IsForest :
    (clock : ℕ) (q : Request) (action : Action) (notes : String) (c : Candidate) (w : World)
    → clock ≤ q.now
    → TwoSides c
    → IsForest clock w
    → IsForest (suc q.now) (review_pending q action notes c w).1
review_pending-IsForest clock q Action.reject notes c w le two forest =
    IsForest-later clock (suc q.now) (rejected_candidate q notes c w) (omega arith) (record {
      keys = forest.keys;
      two_sides =
          All-update_where TwoSides (λ d. d.id == c.id) (reviewed q CandidateStatus.rejected notes)
            w.candidates (λ d hit same. same) forest.two_sides;
      past = forest.past;
      chains = forest.chains;
    })
review_pending-IsForest clock q Action.merge_a_into_b notes c w le two forest =
    merge_candidate-IsForest clock q Action.merge_a_into_b notes c w le two forest
review_pending-IsForest clock q Action.merge_b_into_a notes c w le two forest =
    merge_candidate-IsForest clock q Action.merge_b_into_a notes c w le two forest

review_found-IsForest :
    (clock : ℕ) (q : Request) (action : Action) (notes : String) (c : Option Candidate) (w : World)
    → clock ≤ q.now
    → HoldsOf (λ d. d.id) TwoSides c
    → IsForest clock w
    → IsForest (suc q.now) (review_found q action notes c w).1
review_found-IsForest clock q action notes none w le two forest =
    IsForest-later clock (suc q.now) w (omega arith) forest
review_found-IsForest clock q action notes (some c) w le two forest =
    guarded-IsForest clock (suc q.now) (not (is_pending c.status)) w already_reviewed
      (review_pending q action notes c w) (omega arith) forest
      (review_pending-IsForest clock q action notes c w le two forest)

undo_found-IsForest :
    (clock : ℕ) (q : Request) (m : Option Merge) (w : World)
    → clock ≤ q.now
    → IsForest clock w
    → IsForest (suc q.now) (undo_found q m w).1
undo_found-IsForest clock q none w le forest =
    IsForest-later clock (suc q.now) w (omega arith) forest
undo_found-IsForest clock q (some m) w le forest =
    guarded-IsForest clock (suc q.now) (is_reverted m.reverted_at) w already_reverted
      (ok, split_entities q m w) (omega arith) forest
      (split_entities-IsForest clock q m w le forest)

run_command-IsForest :
    (clock : ℕ) (c : Command) (w : World)
    → clock ≤ time_of c
    → IsForest clock w
    → IsForest (suc (time_of c)) (run_command c w)
unfolding run_command review_candidate undo_merge
run_command-IsForest clock (review q action notes target) w le forest =
    review_found-IsForest clock q action notes (find_by_id (λ c. c.id) target w.candidates) w le
      (found-TwoSides target w.candidates forest.two_sides) forest
run_command-IsForest clock (undo q target) w le forest =
    undo_found-IsForest clock q (find_by_id (λ m. m.id) target w.merges) w le forest

abbrev pub end_of : ℕ → List Command → ℕ
end_of clock [] = clock
end_of clock (c ∷ cs) = end_of (suc (time_of c)) cs

-- Whatever sequence of reviews and undos is run, accepted or refused, each request later than the
-- last: where an entity was merged into one that is merged itself, the latter was merged later.
-- Entities keep their distinct keys, candidates their two different sides, and no entity was changed
-- later than the last request. All of this is given at the start.
pub run_commands-IsForest :
    (clock : ℕ) (cs : List Command) (w : World)
    → InOrder clock cs
    → IsForest clock w
    → IsForest (end_of clock cs) (run_commands cs w)
unfolding run_commands
run_commands-IsForest clock [] w order forest = forest
run_commands-IsForest clock (c ∷ cs) w order forest =
    run_commands-IsForest (suc (time_of c)) cs (run_command c w) order.1
      (run_command-IsForest clock c w order.0 forest)
