-- ===== src/Accounts/Access.antt =====
-- Who passes `check_app_permission` of berth-hub/src/authz.rs.
use mathlib.Core.List.{Memᴰ}
use mathlib.Core.Path.{subst}
use oxde.Prelude.{
  String, ◌≡◌, refl, ◌↔◌, ◌⊎◌, inl, inr, Bool, true, ◌&&◌, List, [], ◌∷◌, any, arith, str_eq,
  eq_iff, Bool-cases,
}
use oxde.Prelude.Result.{ok}
use oxde.Models.{App, AppPermission, PermissionLevel, read, write, satisfies, has_permission}
use oxde.Accounts.{AccountRole, admin, member, CurrentUser, role_permission, check_app_permission}

-- What a level suffices for, as a table.
pub data Covers : PermissionLevel → PermissionLevel → Type 0 where
  read_read : Covers read read
  write_any : (required : PermissionLevel) → Covers write required

-- The app lists a grant to `username` that suffices for `required`.
pub record IsGranted (username : String) (required : PermissionLevel) (grants : List AppPermission)
    : Type 0 where
  pub grant : AppPermission
  pub listed : Memᴰ grant grants
  pub named : grant.username ≡ username
  pub covers : Covers grant.level required

satisfies_sound :
    (level required : PermissionLevel) → satisfies level required ≡ true → Covers level required
unfolding satisfies
satisfies_sound write required h = write_any required
satisfies_sound read read h = read_read
satisfies_sound read write h = cc

satisfies_complete :
    {level required : PermissionLevel} → Covers level required → satisfies level required ≡ true
unfolding satisfies
satisfies_complete read_read = refl
satisfies_complete (write_any required) = refl

module _ (username : String) (required : PermissionLevel) where
  abbrev suffices : AppPermission → Bool
  suffices g = str_eq g.username username && satisfies g.level required

  any_sound :
      (grants : List AppPermission)
      → any suffices grants ≡ true
      → IsGranted username required grants
  any_sound [] h = cc
  any_sound (g ∷ gs) h = elim (Bool-cases (suffices g)) [
    | inl here ↦ record {
      grant = g;
      listed = Memᴰ.head refl;
      named = ground (arith, eq_iff g.username username);
      covers = satisfies_sound g.level required (ground arith);
    }
    | inr there ↦
        let r = any_sound gs (ground arith) in
        record { grant = r.grant; listed = Memᴰ.tail r.listed; named = r.named; covers = r.covers }
  ]

  any_complete :
      (g : AppPermission) (grants : List AppPermission)
      → Memᴰ g grants
      → suffices g ≡ true
      → any suffices grants ≡ true
  any_complete g [] m h = elim m [ ]
  any_complete g (x ∷ xs) (Memᴰ.head e) h =
      let first : suffices x ≡ true = subst (λ y. suffices y ≡ true) e h in ground arith
  any_complete g (x ∷ xs) (Memᴰ.tail m) h = ground (arith, any_complete g xs m h)

role_granted :
    (r : AccountRole) (b : Bool) (required : PermissionLevel)
    → b ≡ true
    → role_permission r b required ≡ ok tt
unfolding role_permission
role_granted admin b required e = refl
role_granted member b required e = rw e refl

-- A request passes exactly if its user is an admin, or the app lists a grant to the user's name at
-- a level that suffices.
pub check_app_permission_iff :
    (user : CurrentUser) (app : App) (required : PermissionLevel)
    → (check_app_permission user app required ≡ ok tt)
      ↔ ((user.role ≡ admin) ⊎ IsGranted user.username required app.permissions)
unfolding check_app_permission has_permission
check_app_permission_iff user app required = (sound user.role refl, complete)
  where
    sound :
        (r : AccountRole)
        → user.role ≡ r
        → check_app_permission user app required ≡ ok tt
        → (user.role ≡ admin) ⊎ IsGranted user.username required app.permissions
    sound admin e h = inl e
    sound member e h = inr (any_sound user.username required app.permissions (ground arith))

    complete :
        (user.role ≡ admin) ⊎ IsGranted user.username required app.permissions
        → check_app_permission user app required ≡ ok tt
    complete (inl e) = rw e refl
    complete (inr g) =
        let passes = any_complete user.username required g.grant app.permissions g.listed (
          rw (g.named, (eq_iff user.username user.username).1 refl)
            (satisfies_complete g.covers)) in
        role_granted user.role _ required passes
