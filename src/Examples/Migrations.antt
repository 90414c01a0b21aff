-- ===== src/Examples/Migrations.antt =====
-- Migration plans at concrete inputs.
use meet_millions_finance.Prelude.{
  if◌then◌else◌, nat_eq, contains, ◌≡◌, refl, sym, true, false, none, List, [], ◌∷◌, arith,
}
use mathlib.Core.Path.{subst}
use meet_millions_finance.Prelude.Text.{Text, text_eq}
use meet_millions_finance.Migrations.{
  State, plan_migration, run_plan, completed, stopped, current, refusal, unhandled, is_empty,
  migrations_without_a_route,
}
use meet_millions_finance.Migrations.Settles.{IsWellNamed, run_settles}
use meet_millions_finance.Migrations.Overlap.{covered_incremental_stops}

abbrev baseline : Text
baseline = b'b' ∷ []

abbrev first : Text
first = b'0' ∷ b'0' ∷ b'0' ∷ b'1' ∷ []

abbrev later : Text
later = b'0' ∷ b'0' ∷ b'1' ∷ b'3' ∷ []

abbrev state : List Text → State
state incrementals = record {
  applied = [];
  table_count = 0;
  covered = first ∷ [];
  source_migrations = first ∷ [];
  incrementals = incrementals;
  baseline_name = baseline;
  verification = none;
}

apart : IsWellNamed (state (later ∷ []))
apart = record {
  distinct = (refl, tt);
  apart = λ f e.
      let same : text_eq.beq f later ≡ true = ground arith in
      subst (λ x. contains x (baseline ∷ first ∷ []) ≡ false)
        (sym ((text_eq.beq_iff f later).0 same)) (ground arith);
}

run_settles_example :
    (rows : List Text) × (run_plan (λ f. true) baseline (plan_migration (state (later ∷ []))) []
      ≡ completed rows)
    × (plan_migration
          (record (state (later ∷ [])) { applied = rows; table_count = 3; verification = none })
        ≡ (if is_empty (unhandled (state (later ∷ [])))
            then current
            else refusal migrations_without_a_route))
unfolding plan_migration
run_settles_example = run_settles (λ f. true) (state (later ∷ [])) 3 none apart (λ f k. refl) refl

covered_incremental_stops_example :
    ((plan_migration (state (first ∷ []))).safe ≡ true)
    × ((rows : List Text) × (run_plan (λ f. true) baseline (plan_migration (state (first ∷ []))) []
          ≡ stopped rows))
covered_incremental_stops_example =
    covered_incremental_stops (λ f. true) (state (first ∷ [])) first refl refl (ground arith)
      (ground arith) refl
