-- ===== src/Models/Access.antt =====
-- What the permission levels of berth-models/src/lib.rs grant.
use oxde.Prelude.{String, ◌≡◌, true, List, [], ◌∷◌, arith, any, str_eq, ◌&&◌}
use oxde.Models.{App, AppPermission, read, write, satisfies, has_permission}

any_write_read :
    (username : String) (grants : List AppPermission)
    → any (λ grant. str_eq grant.username username && satisfies grant.level write) grants ≡ true
    → any (λ grant. str_eq grant.username username && satisfies grant.level read) grants ≡ true
unfolding satisfies
any_write_read username [] h = h
any_write_read username (grant ∷ grants) h = ground (arith, any_write_read username grants)

-- Who may write an app may read it.
pub has_permission_mono :
    (app : App) (username : String)
    → has_permission app username write ≡ true
    → has_permission app username read ≡ true
unfolding has_permission
has_permission_mono app username h = any_write_read username app.permissions h
