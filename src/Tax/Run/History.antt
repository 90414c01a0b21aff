-- ===== src/Tax/Run/History.antt =====
-- What a second computation for a period does to the first.
use meet_millions_finance.Prelude.{
  ◌==◌, Bool-cases, nat_eq, length, ℕ, suc, ◌≡◌, refl, sym, ap, ◌∙◌, inl, inr, Option, some, List,
  [], ◌∷◌, arith,
}
use meet_millions_finance.Store.{update}
use meet_millions_finance.Workflow.Documents.{Document}
use meet_millions_finance.Workflow.Periods.{Period}
use meet_millions_finance.Tax.Gst.{Code}
use meet_millions_finance.Tax.Rules.{Regime, TaxRule}
use meet_millions_finance.Tax.Run.{supplier_state}
use meet_millions_finance.Tax.Run.Handler.{
  wrong_client, run_regime, failed, ComputationStatus, Computation, computation_row, Tables,
  RunInput, ran, existing, run_gst, run_tds, run_computation,
}

length-update :
    (k : ℕ) (g : Computation → Computation) (cs : List Computation)
    → length (update k g cs) ≡ length cs
unfolding update
length-update k g [] = refl
length-update k g (c ∷ cs) = ap suc (length-update k g cs)

-- A run that overwrites computation `c`.
abbrev pub Overwrites : Computation → Computation → Tables → Tables → Type 0
Overwrites c row t t' =
    (row.id ≡ c.id)
    × (row.status ≡ ComputationStatus.computed)
    × (length t'.computations ≡ length t.computations)

gst_Overwrites :
    (q : RunInput) (supplier : Code) (docs : List Document) (p : Period) (t t' : Tables)
    (c row : Computation)
    → run_gst q supplier docs p t (some c) ≡ ran row t'
    → Overwrites c row t t'
gst_Overwrites q supplier docs p t t' c row h =
    ground (arith, length-update c.id (λ _. row) t.computations)

tds_Overwrites :
    (q : RunInput) (rules : List TaxRule) (docs : List Document) (p : Period) (t t' : Tables)
    (c row : Computation)
    → run_tds q rules docs p t (some c) ≡ ran row t'
    → Overwrites c row t t'
tds_Overwrites q rules docs p t t' c row h =
    ground (arith, length-update c.id (λ _. row) t.computations)

regime_Overwrites :
    (q : RunInput) (supplier : Code) (rules : List TaxRule) (docs : List Document) (p : Period)
    (regime : Regime) (t t' : Tables) (c row : Computation)
    → run_regime q supplier rules docs p regime t ≡ ran row t'
    → existing p.id regime t.computations ≡ some c
    → Overwrites c row t t'
regime_Overwrites q supplier rules docs p Regime.gst t t' c row h e =
    gst_Overwrites q supplier docs p t t' c row (ap (run_gst q supplier docs p t) (sym e) ∙ h)
regime_Overwrites q supplier rules docs p Regime.tds t t' c row h e =
    tds_Overwrites q rules docs p t t' c row (ap (run_tds q rules docs p t) (sym e) ∙ h)
regime_Overwrites q supplier rules docs p Regime.cess t t' c row h e = cc

-- Where a computation of the period and regime that is not superseded is there, of whatever status,
-- a run that succeeds writes its figures over that row with status `computed`: the table gets no
-- further row, so no earlier figures are kept.
rerun-Overwrites :
    (q : RunInput) (state_code gstin : Option Code) (rules : List TaxRule) (docs : List Document)
    (p : Period) (regime : Regime) (t t' : Tables) (c row : Computation)
    → run_computation q state_code gstin rules docs p regime t ≡ ran row t'
    → existing p.id regime t.computations ≡ some c
    → Overwrites c row t t'
unfolding run_computation
rerun-Overwrites q state_code gstin rules docs p regime t t' c row h e =
    elim (Bool-cases (p.client_id == q.client_id)) [
      | inl same ↦
          regime_Overwrites q (supplier_state state_code gstin) rules docs p regime t t' c row
            (rw same at h) e
      | inr other ↦ let no : failed wrong_client ≡ ran row t' = rw other at h in cc
    ]
