-- ===== src/Api/Views.antt =====
-- berth-hub/src/routes/api.rs: what a user sees of apps, and which requests pass.
use oxde.Prelude.{
  String, ◌≡◌, refl, ap, Bool, true, false, ◌||◌, ◌↔◌, some, List, [], ◌∷◌, Bool-cases, arith,
  filter, map, inl, inr,
}
use oxde.Prelude.Result.{ok, err, >>=-eq-ok}
use oxde.Http.{Method}
use oxde.Accounts.{CurrentUser, check_app_permission}
use oxde.Models.{App, EnvVar, EnvVarValue, read, has_permission}
use oxde.Db.{Db}
use oxde.Storage.Platform.{Platform}
use oxde.Storage.Apps.{get_app_by_id}
use oxde.Storage.Listing
use oxde.Api.{
  app_view, mask_secrets, masked, list_apps, views_of, is_admin, enforce_app_access, required_level,
}

-- The same value, or two secrets.
abbrev pub AgreeValue : EnvVarValue → EnvVarValue → Type 0
AgreeValue (EnvVarValue.plain a) (EnvVarValue.plain b) = a ≡ b
AgreeValue (EnvVarValue.secret a) (EnvVarValue.secret b) = Unit
AgreeValue (EnvVarValue.plain a) (EnvVarValue.secret b) = ⊥
AgreeValue (EnvVarValue.secret a) (EnvVarValue.plain b) = ⊥

-- The same variables, up to what their secrets are.
abbrev pub AgreeButSecrets : List EnvVar → List EnvVar → Type 0
AgreeButSecrets [] [] = Unit
AgreeButSecrets [] (y ∷ ys) = ⊥
AgreeButSecrets (x ∷ xs) [] = ⊥
AgreeButSecrets (x ∷ xs) (y ∷ ys) =
    (x.key ≡ y.key) × AgreeValue x.value y.value × AgreeButSecrets xs ys

masked-agree : (a b : EnvVarValue) → AgreeValue a b → masked a ≡ masked b
masked-agree (EnvVarValue.plain a) (EnvVarValue.plain b) e = ap EnvVarValue.plain e
masked-agree (EnvVarValue.secret a) (EnvVarValue.secret b) e = refl
masked-agree (EnvVarValue.plain a) (EnvVarValue.secret b) e = absurd e
masked-agree (EnvVarValue.secret a) (EnvVarValue.plain b) e = absurd e

mask_secrets-agree :
    (xs ys : List EnvVar) → AgreeButSecrets xs ys → mask_secrets xs ≡ mask_secrets ys
unfolding mask_secrets
mask_secrets-agree [] [] e = refl
mask_secrets-agree [] (y ∷ ys) e = absurd e
mask_secrets-agree (x ∷ xs) [] e = absurd e
mask_secrets-agree (x ∷ xs) (y ∷ ys) e =
    rw (e.0, masked-agree x.value y.value (e.1), mask_secrets-agree xs ys (e.2)) refl

-- No secret leaves the hub through an app's view: two apps that differ in nothing but what their
-- secrets are, sealed or not, are shown alike.
pub app_view_hides_secrets :
    (p : Platform) (db : Db) (app : App) (env_vars : List EnvVar)
    → AgreeButSecrets app.env_vars env_vars
    → app_view p db (record app { env_vars = env_vars }) ≡ app_view p db app
unfolding app_view
app_view_hides_secrets p db app env_vars agree =
    rw (mask_secrets-agree app.env_vars env_vars agree) refl

abbrev pub passes : CurrentUser → App → Bool
passes user app = elim (check_app_permission user app read) [ ok _ ↦ true | err _ ↦ false ]

passes-visible :
    (user : CurrentUser) (app : App)
    → (is_admin user.role || has_permission app user.username read) ≡ passes user app
unfolding check_app_permission
passes-visible user app = ground arith

views_of-filter :
    (p : Platform) (db : Db) (user : CurrentUser) (apps : List App)
    → views_of p db user apps ≡ map (app_view p db) (filter (passes user) apps)
views_of-filter p db user [] = refl
views_of-filter p db user (app ∷ apps) = elim (Bool-cases (passes user app)) [
  | inl e ↦ rw (passes-visible user app, e, views_of-filter p db user apps) refl
  | inr e ↦ rw (passes-visible user app, e, views_of-filter p db user apps) refl
]

-- The list of apps shows a user exactly the apps that the user may read: the views of those that
-- pass the check of a route that reads, in the order of the whole list.
pub list_apps_as_readable :
    (p : Platform) (db : Db) (user : CurrentUser) (apps : List App)
    → Listing.list_apps p db ≡ ok apps
    → list_apps p db user ≡ ok (map (app_view p db) (filter (passes user) apps))
unfolding list_apps
list_apps_as_readable p db user apps listed = rw listed (ap ok (views_of-filter p db user apps))

-- A request to an app's route passes exactly if the app is found and its user passes the check at
-- the level of its method.
enforce_app_access_iff :
    (p : Platform) (db : Db) (user : CurrentUser) (method : Method) (app_id : String)
    → (enforce_app_access p db user method (some app_id) ≡ ok tt) ↔ (
        (app : App) × (get_app_by_id p db app_id ≡ ok app)
        × (check_app_permission user app (required_level method) ≡ ok tt))
unfolding enforce_app_access
enforce_app_access_iff p db user method app_id = (
  λ passed. >>=-eq-ok (get_app_by_id p db app_id) _ passed,
  λ (app, found, allowed). rw found allowed,
)
