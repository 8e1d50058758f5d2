-- ===== src/Auth/Sessions.antt =====
-- What sessions of berth-hub/src/auth.rs survive, and for whom a cookie stands.
use oxde.Prelude.{
  String, ◌≡◌, ◌≢◌, refl, sym, ap, ◌∙◌, ◌↔◌, ◌⊎◌, inl, inr, Bool, true, false, not, ◌||◌, Option,
  none, some, arith, str_eq, eq_iff, Bool-cases, retain, keep_if,
}
use oxde.Prelude.Int.{ℤ, pos, ◌+ℤ◌, ◌≤ℤ◌, ◌-ℤ◌, ltb_ℤ}
use oxde.Prelude.Result.{ok}
use oxde.Http.{HeaderMap}
use oxde.Auth.{
  AuthState, Session, session_cookie, cookie_value, resolve_cookie_username, resolve_token,
  resolve_session, revoke_sessions_for, revoke_other_sessions_for,
}
use oxde.Auth.Clock.{not_over_sound, not_over_complete}

-- The request's cookie holds a token under which a session of `username` is stored, no more than
-- thirty days old.
pub record IsSession (state : AuthState) (now : ℤ) (headers : HeaderMap) (username : String)
    : Type 0 where
  pub token : String
  pub session : Session
  pub carried : cookie_value headers session_cookie ≡ some token
  pub stored : state.sessions token ≡ some session
  pub named : session.username ≡ username
  pub young : now ≤ℤ session.created_at +ℤ pos 2592000

module _ (state : AuthState) (now : ℤ) (username : String) where
  session_sound :
      (token : String) (o : Option Session)
      → (resolve_session state now token o).1 ≡ ok username
      → (session : Session) × (o ≡ some session)
        × (session.username ≡ username)
        × (now ≤ℤ session.created_at +ℤ pos 2592000)
  unfolding resolve_session
  session_sound token none e = cc
  session_sound token (some session) e =
      let young : ltb_ℤ (pos 2592000) (now -ℤ session.created_at) ≡ false = ground arith in
      (session, refl, ground arith, not_over_sound (pos 2592000) session.created_at now young)

  session_complete :
      (token : String) (session : Session)
      → session.username ≡ username
      → now ≤ℤ session.created_at +ℤ pos 2592000
      → (resolve_session state now token (some session)).1 ≡ ok username
  unfolding resolve_session
  session_complete token session named young =
      let fresh = not_over_complete (pos 2592000) session.created_at now young in
      rw fresh (ap ok named)

token_sound :
    (state : AuthState) (now : ℤ) (headers : HeaderMap) (username : String) (o : Option String)
    → cookie_value headers session_cookie ≡ o
    → (resolve_token state now o).1 ≡ ok username
    → IsSession state now headers username
unfolding resolve_token
token_sound state now headers username none carried e = cc
token_sound state now headers username (some token) carried e =
    let (session, stored, named, young) =
      session_sound state now username token (state.sessions token) e in
    record {
      token = token;
      session = session;
      carried = carried;
      stored = stored;
      named = named;
      young = young;
    }

-- A request's cookie stands for a user exactly if it holds a token with a stored session of that
-- user that is no more than thirty days old.
pub resolve_cookie_username_iff :
    (state : AuthState) (now : ℤ) (headers : HeaderMap) (username : String)
    → ((resolve_cookie_username state now headers).1 ≡ ok username)
      ↔ IsSession state now headers username
unfolding resolve_cookie_username
resolve_cookie_username_iff state now headers username = (
  token_sound state now headers username (cookie_value headers session_cookie) refl,
  λ s.
      rw (s.carried, resolve_token, s.stored)
        (session_complete state now username s.token s.session s.named s.young),
)

option_inj : {a b : String} → some a ≡ some b → a ≡ b
option_inj e = cc

keep_if_inv :
    (p : Session → Bool) (o : Option Session) (session : Session)
    → keep_if p o ≡ some session
    → (o ≡ some session) × (p session ≡ true)
keep_if_inv p none session e = cc
keep_if_inv p (some s) session e = elim (Bool-cases (p s)) [
  | inl kept ↦ let same : s ≡ session = ground arith in (ap some same, rw (← same) kept)
  | inr gone ↦ absurd (ground arith)
]

module _ (p : String → Session → Bool) (state : AuthState) (now : ℤ) (headers : HeaderMap)
    (username : String) where
  abbrev retained : AuthState
  retained = record state { sessions = retain p state.sessions }

  retained_sound :
      IsSession retained now headers username
      → (s : IsSession state now headers username) × (p s.token s.session ≡ true)
  retained_sound s =
      let (stored, kept) = keep_if_inv (p s.token) (state.sessions s.token) s.session s.stored in
      (
        record {
          token = s.token;
          session = s.session;
          carried = s.carried;
          stored = stored;
          named = s.named;
          young = s.young;
        },
        kept,
      )

  retained_complete :
      (s : IsSession state now headers username)
      → p s.token s.session ≡ true
      → IsSession retained now headers username
  retained_complete s kept = record {
    token = s.token;
    session = s.session;
    carried = s.carried;
    stored = rw s.stored (rw kept refl);
    named = s.named;
    young = s.young;
  }

-- After every session of a user has been revoked, a cookie stands for whom it stood before, but
-- for that user.
pub revoke_sessions_for_iff :
    (state : AuthState) (now : ℤ) (headers : HeaderMap) (revoked username : String)
    → IsSession (revoke_sessions_for state revoked) now headers username
      ↔ (IsSession state now headers username × (username ≢ revoked))
unfolding revoke_sessions_for
revoke_sessions_for_iff state now headers revoked username = (
  λ r.
      let (s, kept) = retained_sound _ state now headers username r in
      (s, λ e. ground (arith, eq_iff s.session.username revoked)),
  λ s.
      retained_complete _ state now headers username s.0
        (ground (arith, s.1, eq_iff s.0.session.username revoked)),
)

module _ {state : AuthState} {now : ℤ} {headers : HeaderMap} {username : String}
    (revoked keep_token : String) where
  kept_other :
      (s : IsSession state now headers username)
      → not (str_eq s.session.username revoked) || str_eq s.token keep_token ≡ true
      → (username ≢ revoked) ⊎ (cookie_value headers session_cookie ≡ some keep_token)
  kept_other s kept = elim (Bool-cases (str_eq s.token keep_token)) [
    | inl e ↦
        let same : s.token ≡ keep_token = ground (arith, e, eq_iff s.token keep_token) in
        inr (s.carried ∙ ap some same)
    | inr e ↦
        inl (λ same. ground (arith, kept, e, s.named, same, eq_iff s.session.username revoked))
  ]

  other_kept :
      (s : IsSession state now headers username)
      → (username ≢ revoked) ⊎ (cookie_value headers session_cookie ≡ some keep_token)
      → not (str_eq s.session.username revoked) || str_eq s.token keep_token ≡ true
  other_kept s (inl other) = ground (arith, other, s.named, eq_iff s.session.username revoked)
  other_kept s (inr e) =
      let same : s.token ≡ keep_token = option_inj (sym s.carried ∙ e) in
      ground (arith, same, eq_iff s.token keep_token)

-- After a user's other sessions have been revoked, a cookie stands for whom it stood before, but
-- for that user only if it holds the token that was kept.
pub revoke_other_sessions_for_iff :
    (state : AuthState) (now : ℤ) (headers : HeaderMap) (revoked keep_token username : String)
    → IsSession (revoke_other_sessions_for state revoked keep_token) now headers username ↔ (
        IsSession state now headers username
        × ((username ≢ revoked) ⊎ (cookie_value headers session_cookie ≡ some keep_token)))
unfolding revoke_other_sessions_for
revoke_other_sessions_for_iff state now headers revoked keep_token username = (
  λ r.
      let (s, kept) = retained_sound _ state now headers username r in
      (s, kept_other revoked keep_token s kept),
  λ s. retained_complete _ state now headers username s.0 (other_kept revoked keep_token s.0 s.1),
)
