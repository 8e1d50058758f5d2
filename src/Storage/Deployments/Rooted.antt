-- ===== src/Storage/Deployments/Rooted.antt =====
-- How the operations of berth-hub/src/storage.rs change which deployment row an app's active id
-- leads to.
use mathlib.Core.Path.{subst}
use oxde.Prelude.{
  ℕ, String, ◌≡◌, ◌≢◌, ◌⊎◌, refl, sym, ap, ◌∙◌, inl, inr, Bool, not, ◌&&◌, Option, none, some, [],
  ◌∷◌, ◌++◌, arith, ◌==◌, ==_iff, filter, update_where, if◌then◌else◌, Bool-cases, Option-cases,
}
use oxde.Prelude.Find.{
  map_option, some_inj, find_sound, find-append_found, find-append_other, find-update_where,
  find-filter_kept, find-filter_gone,
}
use oxde.Prelude.Result.{ok, ok_or, >>=-eq-ok, ok_or-eq-ok}
use oxde.Db
use oxde.Db.{Db}
use oxde.Storage.Platform.{Platform}
use oxde.Storage.Rows.{app_with_id, deployment_of, find_app_row_by_id, find_deployment_row}

-- An active id leads to a deployment of its app, and the rows with one id are one app's.
pub record IsRooted (db : Db) : Type 0 where
  pub rooted :
      (id active : ℕ) (app : Db.App)
      → app_with_id db id ≡ some app
      → app.active_deployment_id ≡ some active
      → (row : Db.Deployment) × (deployment_of db id active ≡ some row)
  pub owned :
      (a b id : ℕ) (r s : Db.Deployment)
      → deployment_of db a id ≡ some r
      → deployment_of db b id ≡ some s
      → a ≡ b

pub none-some : {A : Type 0} {a : A} → ◌≡◌ {A = Option A} none (some a) → ⊥
none-some e = cc

pub app_row_found :
    (p : Platform) (db : Db) (app_id : String) (row : Db.App)
    → find_app_row_by_id p db app_id ≡ ok row
    → app_with_id db row.id ≡ some row
unfolding find_app_row_by_id
app_row_found p db app_id row e =
    let (id, _, e1) = >>=-eq-ok (ok_or (p.parse_str app_id) _) _ e in
    let found = ok_or-eq-ok _ _ e1 in
    let test = find_sound (λ a. a.id == id) db.apps found in
    let same : row.id ≡ id = (==_iff row.id id).0 test in
    subst (λ i. app_with_id db i ≡ some row) (sym same) found

pub deployment_row_found :
    (p : Platform) (db : Db) (app_id : ℕ) (deployment_id : String) (row : Db.Deployment)
    → find_deployment_row p db app_id deployment_id ≡ ok row
    → (p.parse_str deployment_id ≡ some row.id) × (deployment_of db app_id row.id ≡ some row)
unfolding find_deployment_row
deployment_row_found p db app_id deployment_id row e =
    let (id, parsed, e1) = >>=-eq-ok (ok_or (p.parse_str deployment_id) _) _ e in
    let found = ok_or-eq-ok _ _ e1 in
    let test = find_sound (λ d. d.id == id && d.app_id == app_id) db.deployments found in
    let same : row.id ≡ id = ground arith in
    (
      ok_or-eq-ok _ _ parsed ∙ ap some (sym same),
      subst (λ i. deployment_of db app_id i ≡ some row) (sym same) found,
    )

module _ (db : Db) (sound : IsRooted db) where
  -- an update that leaves the ids of deployments alone
  pub updated-IsRooted :
      (test : Db.Deployment → Bool) (f : Db.Deployment → Db.Deployment)
      → ((d : Db.Deployment) → (f d).id ≡ d.id)
      → ((d : Db.Deployment) → (f d).app_id ≡ d.app_id)
      → IsRooted (record db { deployments = update_where test f db.deployments })
  updated-IsRooted test f keeps_id keeps_app = record {
    rooted = λ id active app found is_active.
        let (row, was) = sound.rooted id active app found is_active in
        (_, lookup id active ∙ ap (map_option _) was);
    owned = λ a b id r s er es.
        let (r', was_r) = source _ r (sym (lookup a id) ∙ er) in
        let (s', was_s) = source _ s (sym (lookup b id) ∙ es) in
        sound.owned a b id r' s' was_r was_s;
  }
    where
      lookup :
          (a i : ℕ)
          → deployment_of (record db { deployments = update_where test f db.deployments }) a i
            ≡ map_option (λ d. if test d then f d else d) (deployment_of db a i)
      lookup a i =
          find-update_where (λ d. d.id == i && d.app_id == a) test f db.deployments
            (λ d. rw (keeps_id d, keeps_app d) refl)

      source :
          (o : Option Db.Deployment) (v : Db.Deployment)
          → map_option (λ d. if test d then f d else d) o ≡ some v
          → (d : Db.Deployment) × (o ≡ some d)
      source none v e = cc
      source (some d) v e = (d, refl)

  -- a new row, with an id that no row has
  pub appended-IsRooted :
      (row : Db.Deployment)
      → ((a : ℕ) → deployment_of db a row.id ≡ none)
      → IsRooted (record db { deployments = db.deployments ++ row ∷ [] })
  appended-IsRooted row fresh = record {
    rooted = λ id active app found is_active.
        let (r, was) = sound.rooted id active app found is_active in
        (r, find-append_found _ db.deployments row was);
    owned = λ a b id r s er es. one_owner a b id r s (placed a id r er) (placed b id s es);
  }
    where
      placed :
          (a i : ℕ) (r : Db.Deployment)
          → deployment_of (record db { deployments = db.deployments ++ row ∷ [] }) a i ≡ some r
          → (deployment_of db a i ≡ some r) ⊎ ((i ≡ row.id) × (a ≡ row.app_id))
      placed a i r e = elim (Option-cases (deployment_of db a i)) [
        | inr (v, found) ↦ inl (found ∙ sym (find-append_found _ db.deployments row found) ∙ e)
        | inl absent ↦ elim (Bool-cases (row.id == i && row.app_id == a)) [
          | inl here ↦ inr (ground (arith, here), ground (arith, here))
          | inr other ↦ inl (
              sym (find-append_other (λ d. d.id == i && d.app_id == a) db.deployments row other)
              ∙ e)
        ]
      ]

      stale : (a i : ℕ) (r : Db.Deployment) → deployment_of db a i ≡ some r → i ≢ row.id
      stale a i r found same =
          none-some (sym (fresh a) ∙ ap (deployment_of db a) (sym same) ∙ found)

      one_owner :
          (a b i : ℕ) (r s : Db.Deployment)
          → (deployment_of db a i ≡ some r) ⊎ ((i ≡ row.id) × (a ≡ row.app_id))
          → (deployment_of db b i ≡ some s) ⊎ ((i ≡ row.id) × (b ≡ row.app_id))
          → a ≡ b
      one_owner a b i r s (inl x) (inl y) = sound.owned a b i r s x y
      one_owner a b i r s (inl x) (inr (same, _)) = absurd (stale a i r x same)
      one_owner a b i r s (inr (same, _)) (inl y) = absurd (stale b i s y same)
      one_owner a b i r s (inr (_, x)) (inr (_, y)) = x ∙ sym y

  -- the rows with one id removed, which no app has active
  pub removed-IsRooted :
      (gone : ℕ)
      → ((id : ℕ) (app : Db.App)
          → app_with_id db id ≡ some app
          → app.active_deployment_id ≢ some gone)
      → IsRooted (record db { deployments = filter (λ d. not (d.id == gone)) db.deployments })
  removed-IsRooted gone inactive = record {
    rooted = λ id active app found is_active.
        let (r, was) = sound.rooted id active app found is_active in
        (r, kept id active (λ e. inactive id app found (is_active ∙ ap some e)) ∙ was);
    owned = λ a b id r s er es. sound.owned a b id r s (was a id r er) (was b id s es);
  }
    where
      kept :
          (a i : ℕ)
          → i ≢ gone
          → deployment_of
              (record db { deployments = filter (λ d. not (d.id == gone)) db.deployments })
              a
              i
            ≡ deployment_of db a i
      kept a i other =
          find-filter_kept _ (λ d. not (d.id == gone)) db.deployments
            (λ d e. ground (arith, e, other))

      was :
          (a i : ℕ) (r : Db.Deployment)
          → deployment_of
              (record db { deployments = filter (λ d. not (d.id == gone)) db.deployments })
              a
              i
            ≡ some r
          → deployment_of db a i ≡ some r
      was a i r e = elim (Bool-cases (i == gone)) [
        | inl here ↦
            let absent =
              find-filter_gone (λ d. d.id == i && d.app_id == a) (λ d. not (d.id == gone))
                db.deployments (λ d t. ground (arith, t, here)) in
            absurd (none-some (sym absent ∙ e))
        | inr other ↦ sym (kept a i (λ same. ground (arith, other, same))) ∙ e
      ]

  -- an app's active id replaced by that of a deployment of it
  pub activated-IsRooted :
      (id deployment_id : ℕ) (f : Db.App → Db.App) (row : Db.Deployment)
      → deployment_of db id deployment_id ≡ some row
      → ((a : Db.App) → (f a).id ≡ a.id)
      → ((a : Db.App) → (f a).active_deployment_id ≡ some deployment_id)
      → IsRooted (record db { apps = update_where (λ a. a.id == id) f db.apps })
  activated-IsRooted id deployment_id f row found keeps_id activates = record {
    rooted = λ i active app e is_active.
        leads i active app (app_with_id db i) refl (sym (lookup i) ∙ e) is_active;
    owned = sound.owned;
  }
    where
      lookup :
          (i : ℕ)
          → app_with_id (record db { apps = update_where (λ a. a.id == id) f db.apps }) i
            ≡ map_option (λ a. if a.id == id then f a else a) (app_with_id db i)
      lookup i =
          find-update_where (λ a. a.id == i) (λ a. a.id == id) f db.apps (λ a. rw (keeps_id a) refl)

      leads :
          (i active : ℕ) (app : Db.App) (o : Option Db.App)
          → app_with_id db i ≡ o
          → map_option (λ a. if a.id == id then f a else a) o ≡ some app
          → app.active_deployment_id ≡ some active
          → (r : Db.Deployment) × (deployment_of db i active ≡ some r)
      leads i active app none at_i e is_active = absurd (none-some e)
      leads i active app (some a) at_i e is_active = elim (Bool-cases (a.id == id)) [
        | inl here ↦
            let updated : f a ≡ app = some_inj (rw here at e) in
            let chosen : deployment_id ≡ active =
              some_inj (sym (activates a) ∙ ap (λ x. x.active_deployment_id) updated ∙ is_active) in
            let there : a.id ≡ i = (==_iff a.id i).0 (find_sound (λ x. x.id == i) db.apps at_i) in
            let same : id ≡ i = sym ((==_iff a.id id).0 here) ∙ there in
            (
              row,
              subst (λ j. deployment_of db j active ≡ some row) same
                  (subst (λ d. deployment_of db id d ≡ some row) chosen found),
            )
        | inr other ↦
            let kept : a ≡ app = some_inj (rw other at e) in
            sound.rooted i active a at_i (ap (λ x. x.active_deployment_id) kept ∙ is_active)
      ]
