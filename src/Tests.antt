-- ===== src/Tests.antt =====
-- Grants and hosts on concrete inputs.
use Prim.Native.String.{◌++◌}
use oxde.Prelude.{◌≡◌, ◌≢◌, refl, ◌↔◌, ◌⊎◌, [], ◌∷◌}
use oxde.Prelude.Int.{pos}
use oxde.Prelude.Result.{ok}
use oxde.Models.{App, write, upload}
use oxde.Accounts.{admin, check_app_permission}
use oxde.Accounts.Access.{IsGranted, check_app_permission_iff}
use oxde.Routing.{classify_host, app, without_port}
use oxde.Routing.Labels.{classify_host_sound}
use oxde.Fixtures.{lowercase, bob}

abbrev shop : App
shop = record {
  id = "1";
  name = "shop";
  created_at = pos 0;
  updated_at = pos 0;
  host_id = 1;
  source = upload;
  env_vars = [];
  permissions = record { username = "bob"; level = write } ∷ [];
}

check_app_permission_iff_example :
    (check_app_permission bob shop write ≡ ok tt)
    ↔ ((bob.role ≡ admin) ⊎ IsGranted "bob" write shop.permissions)
check_app_permission_iff_example = check_app_permission_iff bob shop write

classified : classify_host lowercase "shop.ex.io:443" "ex.io" ≡ app "shop"
unfolding classify_host oxde.Routing.match_label
classified = refl

classify_host_sound_example :
    (shop.name ≢ "")
    × (lowercase.to_lowercase (without_port "shop.ex.io:443")
        ≡ "shop" ++ ("." ++ lowercase.to_lowercase "ex.io"))
classify_host_sound_example = classify_host_sound lowercase "shop.ex.io:443" "ex.io" classified
