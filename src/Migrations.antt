-- ===== src/Migrations.antt =====
-- The plan of a migration run (src/db/migration-plan.js) and what the runner writes to
-- `schema_migrations` for it (scripts/migrate-runner.mjs).
use meet_millions_finance.Prelude.{
  ltb, leb, ◌==◌, if◌then◌else◌, ltb→lt, leb→le, ==_iff, ==_refl, Bool-cases, Option-cases, or_else,
  is_some, Eq, nat_eq, beq_of, beq_of_iff, length, filter, any, All, length-append, length-filter,
  contains, contains-append, contains-filter, filter-contains, sum_by, sum_by-append, All-imp,
  All-and, All-append, ℕ, zero, suc, ◌+◌, ◌-◌, ◌*◌, ◌/◌, ◌%◌, ◌^◌, ◌≤◌, ◌<◌, max, min, String, ◌≡◌,
  refl, sym, ap, ap₂, ◌∙◌, ◌≢◌, ◌↔◌, ◌⊎◌, inl, inr, Bool, true, false, not, ◌&&◌, ◌||◌, Option,
  none, some, List, [], ◌∷◌, ◌++◌, map, foldl, arith,
}
use meet_millions_finance.Prelude.Text.{Text, text_eq, slice}
pub mod Asked
pub mod Settles
pub mod Overlap

-- The comparison of a database with the baseline: the names that are missing or extra.
pub record Verification : Type 0 where
  pub is_match : Bool
  pub missing_tables : List Text
  pub missing_columns : List Text
  pub extra_tables : List Text

pub record State : Type 0 where
  pub applied : List Text
  pub table_count : ℕ
  pub covered : List Text
  pub source_migrations : List Text
  pub incrementals : List Text
  pub baseline_name : Text
  pub verification : Option Verification

pub data Action : Type 0 where
  refuse resume_baseline adopt up_to_date apply : Action

pub data Reason : Type 0 where
  migrations_without_a_route unverified_existing_schema schema_does_not_match_baseline
        baseline_import_incomplete existing_schema_matches_baseline nothing_pending incremental_only
        baseline_and_incrementals :
      Reason

pub record Plan : Type 0 where
  pub action : Action
  pub reason : Reason
  pub apply_baseline : Bool
  pub recorded : List Text
  pub pending : List Text
  pub safe : Bool

abbrev pub is_routed : State → Text → Bool
is_routed s m =
    contains m s.covered || any (λ f. text_eq.beq (slice 4 f) (slice 4 m)) s.incrementals

abbrev pub unhandled : State → List Text
unhandled s = filter (λ m. not (is_routed s m)) s.source_migrations

abbrev pub has_baseline : State → Bool
has_baseline s = contains s.baseline_name s.applied

-- `incrementals.filter(f => !applied.has(f))`.
abbrev pub pending_of : State → List Text
pending_of s = filter (λ f. not (contains f s.applied)) s.incrementals

abbrev pub is_empty : List Text → Bool
is_empty [] = true
is_empty (x ∷ xs) = false

abbrev pub refusal : Reason → Plan
refusal why = record {
  action = refuse;
  reason = why;
  apply_baseline = false;
  recorded = [];
  pending = [];
  safe = false;
}

-- `subsetOfBaseline`.
abbrev pub is_subset : Verification → Bool
is_subset v =
    not (is_empty v.missing_tables) && is_empty v.missing_columns && is_empty v.extra_tables

-- A database with tables and no record of the baseline.
abbrev pub plan_unrecorded : Option Verification → State → Plan
plan_unrecorded none s = refusal unverified_existing_schema
plan_unrecorded (some v) s =
    if v.is_match
    then record {
      action = adopt;
      reason = existing_schema_matches_baseline;
      apply_baseline = false;
      recorded = s.baseline_name ∷ s.covered;
      pending = pending_of s;
      safe = true;
    }
    else if is_subset v
    then record {
      action = resume_baseline;
      reason = baseline_import_incomplete;
      apply_baseline = true;
      recorded = s.baseline_name ∷ s.covered;
      pending = pending_of s;
      safe = true;
    }
    else refusal schema_does_not_match_baseline

abbrev pub current : Plan
current = record {
  action = up_to_date;
  reason = nothing_pending;
  apply_baseline = false;
  recorded = [];
  pending = [];
  safe = true;
}

-- `planMigration`.
unfoldable pub plan_migration : State → Plan
plan_migration s =
    if has_baseline s && not (is_empty (unhandled s))
    then refusal migrations_without_a_route
    else if not (has_baseline s) && ltb 0 s.table_count
    then plan_unrecorded s.verification s
    else if has_baseline s && is_empty (pending_of s)
    then current
    else record {
      action = apply;
      reason = if has_baseline s then incremental_only else baseline_and_incrementals;
      apply_baseline = not (has_baseline s);
      recorded = if has_baseline s then [] else s.baseline_name ∷ s.covered;
      pending = pending_of s;
      safe = true;
    }

-- The rows of `schema_migrations` after a run, or after the statement that failed.
pub data Run : Type 0 where
  completed : List Text → Run
  stopped : List Text → Run

-- `INSERT IGNORE`.
abbrev pub insert_ignore : Text → List Text → List Text
insert_ignore name rows = if contains name rows then rows else rows ++ name ∷ []

unfoldable pub record_all : List Text → List Text → List Text
record_all [] rows = rows
record_all (name ∷ names) rows = record_all names (insert_ignore name rows)

-- Whether the statements of a file are carried out, `works` says (`applyIncremental`). Then comes the
-- `INSERT`, which the primary key refuses for a name that is there, once per pending file.
unfoldable pub apply_all : (Text → Bool) → List Text → List Text → Run
apply_all works [] rows = completed rows
apply_all works (file ∷ files) rows =
    let rest = apply_all works files (rows ++ file ∷ []) in
    if not (works file) || contains file rows then stopped rows else rest

abbrev pub is_refuse : Action → Bool
is_refuse refuse = true
is_refuse _ = false

-- A run that is not a check, on the rows of `schema_migrations`: a refusal writes nothing, and neither
-- does a baseline whose statements fail. What the statements do to the tables is not modelled.
unfoldable pub run_plan : (Text → Bool) → Text → Plan → List Text → Run
run_plan works baseline p rows =
    if is_refuse p.action || p.apply_baseline && not (works baseline)
    then stopped rows
    else apply_all works p.pending (record_all p.recorded rows)
