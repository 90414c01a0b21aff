-- ===== src/Reports/Paid.antt =====
-- A sign-off after the payment.
use meet_millions_finance.Prelude.{
  nat_eq, ℕ, ◌≡◌, refl, sym, Bool, true, false, Option, some, List, arith,
}
use mathlib.Core.Path.{subst}
use meet_millions_finance.Store.{find}
use meet_millions_finance.Store.Rows.{find-update_self}
use meet_millions_finance.Workflow.Periods.{
  Period, PeriodStatus, can_transition_period, refresh_filing_period,
}
use meet_millions_finance.Workflow.Desk.{Desk, refreshed, refresh, refresh_at, desk_period_row}
use meet_millions_finance.Reports.{Report, Office, ok, report_row, set_status, move_period}
use meet_millions_finance.Reports.Routes.{Caller}
use meet_millions_finance.Reports.SignOff.{accept, sign_off, may_sign, visible_report}

-- The period of an accepted sign-off, after the move and the refresh.
signed_period :
    (k : ℕ) (t : Desk) {p : Period}
    → find k t.periods ≡ some p
    → (p' : Period) × (find k (refresh k (move_period PeriodStatus.signed_off (some k) t)).periods
        ≡ some p')
      × (p'.status ≡ PeriodStatus.signed_off)
unfolding refresh_filing_period
signed_period k t {p} f =
    let moved = move_period PeriodStatus.signed_off (some k) t in
    let there : find k moved.periods ≡ some (set_status PeriodStatus.signed_off p) =
      find-update_self k (set_status PeriodStatus.signed_off) t.periods (λ x. refl) f in
    (
      refreshed moved (set_status PeriodStatus.signed_off p),
      find-update_self k (refreshed moved) moved.periods (λ x. refl) there,
      refl,
    )

not_listed : can_transition_period PeriodStatus.paid PeriodStatus.signed_off ≡ false
unfolding can_transition_period
not_listed = ground arith

-- The client's acceptance of a report of a period is accepted whatever the period's status and leaves
-- the period signed off, so a period that was paid is paid no more, a move that the transition table
-- does not have.
pub sign_off_forgets_payment :
    (c : Caller) (views_all : Bool) (clients : List ℕ) (comment : Option ℕ) (k i : ℕ) (o : Office)
    {r : Report} {p : Period}
    → visible_report views_all clients (find k o.reports) ≡ some r
    → may_sign r.status ≡ true
    → r.filing_period_id ≡ some i
    → find i o.desk.periods ≡ some p
    → p.status ≡ PeriodStatus.paid
    → (can_transition_period p.status PeriodStatus.signed_off ≡ false)
      × ((o' : Office) × (p' : Period) × (sign_off c views_all clients true comment k o ≡ ok o')
          × (find i o'.desk.periods ≡ some p')
          × (p'.status ≡ PeriodStatus.signed_off))
unfolding sign_off
sign_off_forgets_payment c views_all clients comment k i o {r} {p} f s q g paid =
    let after = signed_period i o.desk g in
    (
      rw paid not_listed,
      (
        accept c comment r o,
        after.0,
        (rw (f, s) refl),
        subst
            (λ x.
              find i (refresh_at x (move_period PeriodStatus.signed_off x o.desk)).periods
              ≡ some (after.0))
            (sym q) (after.1),
        after.2,
      ),
    )
