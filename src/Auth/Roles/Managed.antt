-- ===== src/Auth/Roles/Managed.antt =====
-- Who may manage a role.
use meet_millions_finance.Prelude.{
  ltb, nat_eq, any, ℕ, ◌≡◌, true, false, ◌||◌, List, [], ◌∷◌, arith,
}
use meet_millions_finance.Auth.Roles.{RoleKey, role_level, highest_level, is_super, can_manage_role}

below_highest :
    (t : ℕ) (actor : List RoleKey)
    → ltb t (highest_level actor) ≡ any (λ r. ltb t (role_level r)) actor
below_highest t [] = ground arith
below_highest t (r ∷ rs) = ground (arith, below_highest t rs)

-- Who may manage a role is a super admin or has some role of a higher level; so a single role that is
-- not the super admin's manages neither itself nor a role that manages it.
can_manage_role_lem :
    (actor : List RoleKey) (target : RoleKey)
    → (can_manage_role actor target
        ≡ (any is_super actor || any (λ r. ltb (role_level target) (role_level r)) actor))
      × ((a : RoleKey)
          → is_super a ≡ false
          → can_manage_role (a ∷ []) target ≡ true
          → (can_manage_role (a ∷ []) a ≡ false)
            × (is_super target ≡ false → can_manage_role (target ∷ []) a ≡ false))
unfolding can_manage_role
can_manage_role_lem actor target =
    (ground (arith, below_highest (role_level target) actor), λ a n m. ground arith)
