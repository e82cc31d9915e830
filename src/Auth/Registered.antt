-- ===== src/Auth/Registered.antt =====
-- What a registration leaves (src/api/auth.py).
use extube.Prelude.{
  ℕ, ◌≡◌, String, Bool, true, false, ◌||◌, Option, none, some, List, [], ◌∷◌, ◌++◌, any, first,
  str_eq, eq_refl, Bool-cases, inl, inr, arith, refl,
}
use extube.Http.{Reply, ok, http}
use extube.Accounts.{User, create_user, get_by_username, get_by_id}
use extube.Auth.{Crypto, Counters, Server, Identity, register}
use extube.Auth.Credentials.{UserRegister, is_valid_registration, register_body}

first-append :
    (p : User → Bool) (users : List User) (user : User)
    → any p users ≡ false
    → p user ≡ true
    → first p (users ++ user ∷ []) ≡ some user
first-append p [] user h k = rw k refl
first-append p (u ∷ users) user h k = ground (arith, h, first-append p users user)

any-or :
    (p q : User → Bool) (users : List User)
    → any (λ u. p u || q u) users ≡ false
    → (any p users ≡ false) × (any q users ≡ false)
any-or p q [] h = (refl, refl)
any-or p q (u ∷ users) h =
    (ground (arith, h, any-or p q users), ground (arith, h, any-or p q users))

module _ (C : Counters) (K : Crypto) where
  -- The row of a user who has registered.
  abbrev pub row_of : UserRegister → String → ℕ → User
  row_of body user_id now = record {
    id = user_id;
    username = body.username;
    hashed_password = K.hash body.password;
    created_at = now;
  }

  -- What a registration that is answered with an identity leaves.
  pub record Registers (body : UserRegister) (user_id : String) (now : ℕ) (identity : Identity)
      (server : Server C) : Type 0 where
    pub names : identity ≡ record { id = user_id; username = body.username }
    pub by_name : get_by_username body.username server.users ≡ some (row_of body user_id now)
    pub by_id : get_by_id user_id server.users ≡ some (row_of body user_id now)

  -- After the registration, by its answer.
  abbrev pub Registered : UserRegister → String → ℕ → Server C × Reply Identity → Type 0
  Registered body user_id now (server, ok identity) = Registers body user_id now identity server
  Registered body user_id now (server, http code) = Unit

  abbrev of_users :
      UserRegister → String → Server C → Option (List User) → Server C × Reply Identity
  of_users body user_id server none = (server, http 500)
  of_users body user_id server (some users) =
      (record server { users = users }, ok (record { id = user_id; username = body.username }))

  of_users-Registered :
      (body : UserRegister) (user_id : String) (now : ℕ) (server : Server C)
      → Registered body user_id now (
          of_users body user_id server
            (create_user user_id body.username (K.hash body.password) now server.users))
  unfolding create_user get_by_username get_by_id
  of_users-Registered body user_id now server =
      let taken : User → Bool = λ u. str_eq u.id user_id || str_eq u.username body.username in
      elim (Bool-cases (any taken server.users)) [
        | inl old ↦ rw old tt
        | inr new ↦
            let free =
              any-or (λ u. str_eq u.id user_id) (λ u. str_eq u.username body.username) server.users
                new in
            rw new (record {
              names = refl;
              by_name =
                  first-append _ server.users (row_of body user_id now) free.1
                    (eq_refl body.username);
              by_id =
                  first-append _ server.users (row_of body user_id now) free.0 (eq_refl user_id);
            })
      ]

  of_lookup-Registered :
      (body : UserRegister) (user_id : String) (now : ℕ) (server : Server C) (found : Option User)
      → Registered body user_id now (elim found as (λ _. Server C × Reply Identity) [
        | some existing ↦ (server, http 409)
        | none ↦
            of_users body user_id server
              (create_user user_id body.username (K.hash body.password) now server.users)
      ])
  of_lookup-Registered body user_id now server (some existing) = tt
  of_lookup-Registered body user_id now server none = of_users-Registered body user_id now server

  pub register_body-Registered :
      (decimal : ℕ → Bool) (body : UserRegister) (user_id : String) (now : ℕ) (server : Server C)
      → Registered body user_id now (register_body C K decimal body user_id now server)
  unfolding register_body register
  register_body-Registered decimal body user_id now server =
      elim (Bool-cases (is_valid_registration decimal body)) [
        | inl valid ↦ rw valid (
            of_lookup-Registered body user_id now server
              (get_by_username body.username server.users))
        | inr bad ↦ rw bad tt
      ]
