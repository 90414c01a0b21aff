-- ===== src/Auth/Roles.antt =====
-- The levels of the system roles and who may manage whom (src/permissions/roles.js). A role key that is
-- not one of the seven has level 0.
use meet_millions_finance.Prelude.{
  ltb, leb, ◌==◌, if◌then◌else◌, ltb→lt, leb→le, ==_iff, ==_refl, Bool-cases, Option-cases, or_else,
  is_some, Eq, nat_eq, beq_of, beq_of_iff, length, filter, any, All, length-append, length-filter,
  contains, contains-append, contains-filter, filter-contains, sum_by, sum_by-append, All-imp,
  All-and, All-append, ℕ, zero, suc, ◌+◌, ◌-◌, ◌*◌, ◌/◌, ◌%◌, ◌^◌, ◌≤◌, ◌<◌, max, min, String, ◌≡◌,
  refl, sym, ap, ap₂, ◌∙◌, ◌≢◌, ◌↔◌, ◌⊎◌, inl, inr, Bool, true, false, not, ◌&&◌, ◌||◌, Option,
  none, some, List, [], ◌∷◌, ◌++◌, map, foldl, arith,
}
pub mod Managed

pub data RoleKey : Type 0 where
  super_admin admin finance_manager finance_executive accountant client auditor : RoleKey
  custom : ℕ → RoleKey

-- `roleLevel`.
abbrev pub role_level : RoleKey → ℕ
role_level super_admin = 100
role_level admin = 80
role_level finance_manager = 65
role_level finance_executive = 50
role_level accountant = 45
role_level client = 20
role_level auditor = 30
role_level (custom k) = 0

-- `highestLevel`.
abbrev pub highest_level : List RoleKey → ℕ
highest_level [] = 0
highest_level (r ∷ rs) = max (role_level r) (highest_level rs)

abbrev pub is_super : RoleKey → Bool
is_super super_admin = true
is_super _ = false

-- `canManageRole`.
unfoldable pub can_manage_role : List RoleKey → RoleKey → Bool
can_manage_role actor target =
    if any is_super actor then true else ltb (role_level target) (highest_level actor)
