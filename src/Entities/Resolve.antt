-- ===== src/Entities/Resolve.antt =====
-- services/entity_resolution/resolve.py: `find_or_create_entity_by_afm`. Names in capitals are an
-- argument, since `str.upper` is that of Unicode.
use procintel.Common.{
  ℕ, ◌≤◌, ◌≡◌, refl, Bool, true, false, Option, none, some, String, List, [], ◌∷◌, ◌++◌, ◌&&◌,
  str_eq, eq_iff, if◌then◌else◌, arith, Bool-cases, inl, inr,
}
use procintel.Common.Table.{count_where, count_where-append}

pub data Eligibility : Type 0 where
  eligible restricted : Eligibility

-- A row of entities; the country is GR.
pub record Entity : Type 0 where
  pub id : ℕ
  pub entity_type : String
  pub canonical_name : String
  pub normalized_name : String

-- A row of entity_identifiers of the country GR, with confidence 1.
pub record Identifier : Type 0 where
  pub id : ℕ
  pub entity_id : ℕ
  pub scheme : String
  pub value_raw : String
  pub value_normalized : String
  pub source_record_id : Option ℕ
  pub is_current : Bool
  pub identifier_valid : Bool
  pub match_eligibility : Eligibility

pub record Registry : Type 0 where
  pub entities : List Entity
  pub identifiers : List Identifier

-- The arguments, and the UUIDs that the call draws.
pub record Query : Type 0 where
  pub afm_raw : String
  pub afm_normalized : String
  pub afm_checksum_valid : Bool
  pub name : Option String
  pub entity_type : String
  pub source_record_id : Option ℕ
  pub entity_id : ℕ
  pub identifier_id : ℕ

unfoldable pub is_afm : String → Identifier → Bool
is_afm afm i = str_eq i.scheme "AFM" && (str_eq i.value_normalized afm && i.is_current)

-- `existing.first()`
unfoldable pub entity_of : String → List Identifier → Option ℕ
unfolding is_afm
entity_of afm [] = none
entity_of afm (i ∷ is) =
    let rest = entity_of afm is in if is_afm afm i then some i.entity_id else rest

-- `name or afm_normalized`
abbrev pub display_name : Query → String
display_name q = elim q.name [
  | none ↦ q.afm_normalized
  | some name ↦ if str_eq name "" then q.afm_normalized else name
]

abbrev pub new_identifier : Query → Identifier
new_identifier q = record {
  id = q.identifier_id;
  entity_id = q.entity_id;
  scheme = "AFM";
  value_raw = q.afm_raw;
  value_normalized = q.afm_normalized;
  source_record_id = q.source_record_id;
  is_current = true;
  identifier_valid = q.afm_checksum_valid;
  match_eligibility = if q.afm_checksum_valid then eligible else restricted;
}

abbrev pub created : (String → String) → Query → Registry → Registry
created upper q w = record {
  entities =
      w.entities
      ++ record {
        id = q.entity_id;
        entity_type = q.entity_type;
        canonical_name = display_name q;
        normalized_name = upper (display_name q);
      }
        ∷ [];
  identifiers = w.identifiers ++ new_identifier q ∷ [];
}

abbrev pub find_or_create : (String → String) → Query → Registry → Option ℕ → ℕ × Registry
find_or_create upper q w none = (q.entity_id, created upper q w)
find_or_create upper q w (some entity_id) = (entity_id, w)

-- `find_or_create_entity_by_afm`
unfoldable pub find_or_create_entity_by_afm : (String → String) → Query → Registry → ℕ × Registry
unfolding entity_of
find_or_create_entity_by_afm upper q w =
    find_or_create upper q w (entity_of q.afm_normalized w.identifiers)

-- The unique index: an AFM has one current identifier at most.
abbrev pub IsUnique : Registry → Type 0
IsUnique w = (afm : String) → count_where (is_afm afm) w.identifiers ≤ 1

created_is_found :
    (q : Query) (is : List Identifier)
    → entity_of q.afm_normalized is ≡ none
    → entity_of q.afm_normalized (is ++ new_identifier q ∷ []) ≡ some q.entity_id
unfolding entity_of is_afm
created_is_found q [] h = rw ((eq_iff q.afm_normalized q.afm_normalized).1 refl) refl
created_is_found q (i ∷ is) h = elim (Bool-cases (is_afm q.afm_normalized i)) [
  | inl e ↦ cc (rw e at h)
  | inr e ↦ rw e (created_is_found q is (rw e at h))
]

none_is_counted :
    (afm : String) (is : List Identifier)
    → entity_of afm is ≡ none
    → count_where (is_afm afm) is ≡ 0
unfolding entity_of count_where
none_is_counted afm [] h = refl
none_is_counted afm (i ∷ is) h = elim (Bool-cases (is_afm afm i)) [
  | inl e ↦ cc (rw e at h)
  | inr e ↦ rw e (none_is_counted afm is (rw e at h))
]

single-le : (p : Identifier → Bool) (i : Identifier) → count_where p (i ∷ []) ≤ 1
unfolding count_where
single-le p i = ground arith

other_afm :
    (q : Query) (afm : String)
    → str_eq q.afm_normalized afm ≡ false
    → count_where (is_afm afm) (new_identifier q ∷ []) ≡ 0
unfolding count_where is_afm
other_afm q afm e = rw e refl

one_more :
    (q : Query) (afm : String) (is : List Identifier)
    → entity_of q.afm_normalized is ≡ none
    → count_where (is_afm afm) is ≤ 1
    → count_where (is_afm afm) (is ++ new_identifier q ∷ []) ≤ 1
one_more q afm is h le = elim (Bool-cases (str_eq q.afm_normalized afm)) [
  | inl e ↦ omega (
    arith,
    count_where-append (is_afm afm) is (new_identifier q ∷ []),
    none_is_counted afm is (rw ((eq_iff q.afm_normalized afm).0 e) at h),
    single-le (is_afm afm) (new_identifier q),
  )
  | inr e ↦
      omega
        (arith, count_where-append (is_afm afm) is (new_identifier q ∷ []), other_afm q afm e, le)
]

-- The calls find what they have created, and no AFM gets a second entity: with at most one current
-- identifier for each AFM before the call there is at most one after it, and a later call with the
-- same AFM, whatever its name and type, gives the same entity and changes nothing.
pub resolve_once :
    (upper : String → String) (q r : Query) (w : Registry)
    → r.afm_normalized ≡ q.afm_normalized
    → IsUnique w
    → IsUnique (find_or_create_entity_by_afm upper q w).1
      × (find_or_create_entity_by_afm upper r (find_or_create_entity_by_afm upper q w).1
          ≡ find_or_create_entity_by_afm upper q w)
unfolding find_or_create_entity_by_afm
resolve_once upper q r w same unique = by_found (entity_of q.afm_normalized w.identifiers) refl
  where
    by_found :
        (found : Option ℕ)
        → entity_of q.afm_normalized w.identifiers ≡ found
        → IsUnique (find_or_create upper q w found).1
          × (find_or_create upper r
                (find_or_create upper q w found).1
                (entity_of r.afm_normalized (find_or_create upper q w found).1.identifiers)
              ≡ find_or_create upper q w found)
    by_found none e = (
      λ afm. one_more q afm w.identifiers e (unique afm),
      rw (same, created_is_found q w.identifiers e) refl,
    )
    by_found (some entity_id) e = (unique, rw (same, e) refl)
