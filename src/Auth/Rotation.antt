-- ===== src/Auth/Rotation.antt =====
-- Token rotation in src/api/auth.py: a refresh token is good for one refresh.
use extube.Prelude.{
  ℕ, ◌≡◌, String, true, false, Option, none, some, List, [], ◌∷◌, ◌++◌, arith, refl, sym, ap, ◌∙◌,
  str_eq, eq_iff, eq_refl, any, ltb, Option-cases, Bool-cases, inl, inr,
}
use mathlib.Core.Path.{subst}
use extube.Http.{ok, http}
use extube.Accounts.{
  User, RefreshToken, create_token, get_by_username, create_user, get_token, revoke,
}
use extube.Accounts.Laws.{get_token-revoke, get_token-append, any-revoke, any-get_token}
use extube.Auth.{
  Crypto, Counters, Settings, Server, TokenResponse, check_login_lockout, record_login_failure,
  clear_login_attempts, authenticate, register, issue, login, reissue, find_user, is_type, rotate,
  refresh,
}

-- A request that changes the accounts.
pub data Request : Type 0 where
  registers : String → String → String → ℕ → Request
  logs_in : String → String → String → ℕ → Request
  refreshes : String → String → ℕ → Request

-- There is a token with the id, and it is revoked.
abbrev Gone : String → List RefreshToken → Type 0
Gone id ts = (get_token id ts ≡ none) × (any (λ t. str_eq t.token_id id) ts ≡ true)

revoke-Gone : (id k : String) (ts : List RefreshToken) → Gone id ts → Gone id (revoke k ts)
revoke-Gone id k ts h = (ground (arith, h.0, get_token-revoke id k ts), any-revoke id k ts ∙ h.1)

any-append :
    (id : String) (ts : List RefreshToken) (r : RefreshToken)
    → any (λ t. str_eq t.token_id id) ts ≡ true
    → any (λ t. str_eq t.token_id id) (ts ++ r ∷ []) ≡ true
any-append id [] r h = cc
any-append id (t ∷ ts) r h = ground (arith, h, any-append id ts r)

-- An id that a table lacks is none that it has.
other_id :
    (new_id id : String) (ts : List RefreshToken)
    → any (λ t. str_eq t.token_id new_id) ts ≡ false
    → any (λ t. str_eq t.token_id id) ts ≡ true
    → str_eq new_id id ≡ false
other_id new_id id ts new known =
    ground (arith, ap (λ i. any (λ t. str_eq t.token_id i) ts), eq_iff new_id id, new, known)

module _ (C : Counters) (K : Crypto) (s : Settings) where
  -- One request, whose answer is not looked at, and any number of them.
  unfoldable pub handle : Request → Server C → Server C
  unfolding register login refresh
  handle (registers username password user_id now) server =
      (register C K username password user_id now server).0
  handle (logs_in username password token_id now) server =
      (login C K s username password token_id now server).0
  handle (refreshes token new_id now) server = (refresh C K s token new_id now server).0

  unfoldable pub handle_all : List Request → Server C → Server C
  unfolding handle
  handle_all [] server = server
  handle_all (r ∷ requests) server = handle_all requests (handle r server)

  check-tokens :
      (username : String) (now : ℕ) (server : Server C)
      → (check_login_lockout C s username now server).0.tokens ≡ server.tokens
  unfolding check_login_lockout
  check-tokens username now server = elim (Option-cases server.redis) [
    | inl e ↦ rw (e, check_login_lockout) refl
    | inr (db, e) ↦ rw (e, check_login_lockout) refl
  ]

  record-tokens :
      (username : String) (now : ℕ) (server : Server C)
      → (record_login_failure C s username now server).tokens ≡ server.tokens
  unfolding record_login_failure
  record-tokens username now server = elim (Option-cases server.redis) [
    | inl e ↦ rw (e, record_login_failure) refl
    | inr (db, e) ↦ rw (e, record_login_failure) refl
  ]

  module _ (id : String) where
    issue-Gone :
        (user : User) (new_id : String) (now : ℕ) (server : Server C)
        → Gone id server.tokens
        → Gone id (issue C K s user new_id now server).0.tokens
    unfolding issue create_token
    issue-Gone user new_id now server h =
        elim (Bool-cases (any (λ t. str_eq t.token_id new_id) server.tokens)) [
          | inl taken ↦ rw (taken, issue, create_token) h
          | inr new ↦
              let differs : str_eq new_id id ≡ false = other_id new_id id server.tokens new h.1 in
              rw (new, issue, create_token)
                (get_token-append id server.tokens _ h.0 differs, any-append id server.tokens _ h.1)
        ]

    reissue-Gone :
        (o : Option User) (new_id : String) (now : ℕ) (server : Server C)
        → Gone id server.tokens
        → Gone id (reissue C K s o new_id now server).0.tokens
    unfolding reissue
    reissue-Gone none new_id now server h = h
    reissue-Gone (some user) new_id now server h = issue-Gone user new_id now server h

    register-tokens :
        (username password user_id : String) (now : ℕ) (server : Server C)
        → (register C K username password user_id now server).0.tokens ≡ server.tokens
    unfolding register
    register-tokens username password user_id now server =
        elim (Option-cases (get_by_username username server.users)) [
          | inr (user, e) ↦ rw (e, register) refl
          | inl e ↦
              elim (Option-cases
                (create_user user_id username (K.hash password) now server.users)) [
                  | inl f ↦ rw (e, register, f) refl
                  | inr (users, f) ↦ rw (e, register, f) refl
                ]
        ]

    login-Gone :
        (username password token_id : String) (now : ℕ) (server : Server C)
        → Gone id server.tokens
        → Gone id (login C K s username password token_id now server).0.tokens
    unfolding login clear_login_attempts
    login-Gone username password token_id now server h =
        let checked = (check_login_lockout C s username now server).0 in
        let still : Gone id checked.tokens =
          subst (Gone id) (sym (check-tokens username now server)) h in
        elim (Bool-cases (check_login_lockout C s username now server).1) [
          | inl locked ↦ rw (locked, login) still
          | inr free ↦ elim (Option-cases (authenticate C K username password checked)) [
            | inl e ↦
                rw (free, e, login)
                  (subst (Gone id) (sym (record-tokens username now checked)) still)
            | inr (user, e) ↦
                rw (free, e, login)
                  (issue-Gone user token_id now (clear_login_attempts C username checked) still)
          ]
        ]

    rotate-Gone :
        (jti u : Option String) (new_id : String) (now : ℕ) (server : Server C)
        → Gone id server.tokens
        → Gone id (rotate C K s jti u new_id now server).0.tokens
    unfolding rotate
    rotate-Gone none u new_id now server h = h
    rotate-Gone (some k) u new_id now server h = elim (Option-cases (get_token k server.tokens)) [
      | inl e ↦ rw (e, rotate) h
      | inr (t, e) ↦ elim (Bool-cases (ltb t.expires_at now)) [
        | inl old ↦ rw (e, rotate, old) h
        | inr fresh ↦
            rw (e, rotate, fresh)
              (reissue-Gone (find_user C K server u) new_id now
                (record server { tokens = revoke k server.tokens })
                (revoke-Gone id k server.tokens h))
      ]
    ]

    refresh-Gone :
        (token new_id : String) (now : ℕ) (server : Server C)
        → Gone id server.tokens
        → Gone id (refresh C K s token new_id now server).0.tokens
    unfolding refresh is_type
    refresh-Gone token new_id now server h = elim (Option-cases (K.decode now token)) [
      | inl e ↦ rw (e, refresh) h
      | inr (p, e) ↦ elim (Bool-cases (is_type C K "refresh" p.type)) [
        | inl fits ↦ rw (e, refresh, fits) (rotate-Gone p.jti p.sub new_id now server h)
        | inr other ↦ rw (e, refresh, other) h
      ]
    ]

    handle-Gone :
        (r : Request) (server : Server C) → Gone id server.tokens → Gone id (handle r server).tokens
    unfolding handle
    handle-Gone (registers username password user_id now) server h =
        subst (Gone id) (sym (register-tokens username password user_id now server)) h
    handle-Gone (logs_in username password token_id now) server h =
        login-Gone username password token_id now server h
    handle-Gone (refreshes token new_id now) server h = refresh-Gone token new_id now server h

    handle_all-Gone :
        (requests : List Request) (server : Server C)
        → Gone id server.tokens
        → Gone id (handle_all requests server).tokens
    unfolding handle_all
    handle_all-Gone [] server h = h
    handle_all-Gone (r ∷ requests) server h =
        handle_all-Gone requests (handle r server) (handle-Gone r server h)

    -- The first exchange of the token leaves it revoked.
    exchanged-Gone :
        (u : Option String) (new_id : String) (now : ℕ) (server : Server C) (r : TokenResponse)
        → (rotate C K s (some id) u new_id now server).1 ≡ ok r
        → Gone id (rotate C K s (some id) u new_id now server).0.tokens
    unfolding rotate
    exchanged-Gone u new_id now server r h = elim (Option-cases (get_token id server.tokens)) [
      | inl e ↦ cc (rw (e, rotate) at h)
      | inr (t, e) ↦ elim (Bool-cases (ltb t.expires_at now)) [
        | inl old ↦ cc (rw (e, rotate, old) at h)
        | inr fresh ↦
            rw (e, rotate, fresh)
              (reissue-Gone (find_user C K server u) new_id now
                (record server { tokens = revoke id server.tokens })
                (
                  get_token-revoke id id server.tokens ∙ rw (eq_refl id) refl,
                  any-revoke id id server.tokens ∙ any-get_token id server.tokens t e,
                ))
      ]
    ]

    rotate-unknown :
        (u : Option String) (new_id : String) (now : ℕ) (server : Server C)
        → get_token id server.tokens ≡ none
        → (rotate C K s (some id) u new_id now server).1 ≡ http 401
    unfolding rotate
    rotate-unknown u new_id now server h = rw (h, rotate) refl

  -- The two exchanges, and what comes between them, by the id in the token.
  rotate_twice :
      (jti u v : Option String) (new_id next_id : String) (now later : ℕ) (requests : List Request)
      (server : Server C) (r : TokenResponse)
      → (rotate C K s jti u new_id now server).1 ≡ ok r
      → (rotate C K s jti v next_id later
          (handle_all requests (rotate C K s jti u new_id now server).0)).1
        ≡ http 401
  rotate_twice none u v new_id next_id now later requests server r h = unfold rotate in refl
  rotate_twice (some id) u v new_id next_id now later requests server r h =
      let after = (rotate C K s (some id) u new_id now server).0 in
      rotate-unknown id v next_id later (handle_all requests after)
        (handle_all-Gone id requests after (exchanged-Gone id u new_id now server r h)).0

  -- A refresh token that was exchanged once, with new tokens as the answer, is refused with 401
  -- whenever it is presented again, whatever registrations, sign-ins and refreshes come in between.
  pub refresh_twice :
      (token new_id next_id : String) (now later : ℕ) (requests : List Request) (server : Server C)
      (r : TokenResponse)
      → (refresh C K s token new_id now server).1 ≡ ok r
      → (refresh C K s token next_id later
          (handle_all requests (refresh C K s token new_id now server).0)).1
        ≡ http 401
  unfolding refresh is_type
  refresh_twice token new_id next_id now later requests server r h =
      elim (Option-cases (K.decode now token)) [
        | inl e ↦ cc (rw (e, refresh) at h)
        | inr (p, e) ↦ elim (Option-cases (K.decode later token)) [
          | inl e' ↦ rw (e', refresh) refl
          | inr (q, e') ↦ ground (
            arith,
            h,
            e,
            e',
            K.decode_stable now later token p q e e',
            rotate_twice p.jti p.sub p.sub new_id next_id now later requests server r,
          )
        ]
      ]
