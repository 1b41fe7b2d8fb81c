-- ===== src/Signalling/Users.antt =====
-- signalling/src/features/user/service.rs and auth/service.rs, over the repositories. `user_name` is
-- what `generate_username` draws, and `now` the time of a call.
pub mod Login
use waterbus_rs.Base.{ℕ, Bool, true, false, String, Option, none, some, Result, ok, err}
use waterbus_rs.Action.{Action, pure, fail, query, or_else, ◌>>=◌}
use waterbus_rs.Signalling.Models.{User, NewUser, UserError, AuthError, auth_unexpected_error}
use waterbus_rs.Signalling.Repositories.{UserRepository, AuthRepository, JwtUtils}

pub record UpdateUserDto : Type 0 where
  pub full_name : String
  pub avatar : Option String
  pub bio : Option String

pub record CreateTokenDto : Type 0 where
  pub full_name : String
  pub external_id : String

pub record AuthResponse : Type 0 where
  pub token : String
  pub refresh_token : String
  pub user : Option User

abbrev or_kept : Option String → Option String → Option String
or_kept none old = old
or_kept (some new) old = some new

module _ {World : Type 0} (users : UserRepository World) where
  unfoldable pub update_user : ℕ → UpdateUserDto → Action World UserError User
  update_user user_id dto = do
    user ← query (users.get_user_by_id user_id)
    users.update_user (record user {
      full_name = some dto.full_name;
      avatar = or_kept dto.avatar user.avatar;
      bio = or_kept dto.bio user.bio;
    })

  unfoldable pub check_username_exists : String → World → Bool
  check_username_exists name w = elim (users.get_username name w) [ ok _ ↦ true | err _ ↦ false ]

-- The tokens of a user, made at the time `now`, with the user or without.
unfoldable pub auth_response : JwtUtils → ℕ → ℕ → Option User → AuthResponse
auth_response jwt now id user = record {
  token = jwt.generate_token id now;
  refresh_token = jwt.generate_refresh_token id now;
  user = user;
}

module _ {World : Type 0} (auth : AuthRepository World) (jwt : JwtUtils) where
  -- Whatever error the search for the user ends with, a new user is created.
  unfoldable pub login_with_social :
      String → ℕ → CreateTokenDto → Action World AuthError AuthResponse
  login_with_social user_name now dto w = elim (auth.get_user_by_auth_id dto.external_id w) [
    | ok user ↦ (ok (auth_response jwt now user.id (some user)), w)
    | err _ ↦
        let (created, w') =
          auth.create_user
            (record {
              full_name = some dto.full_name;
              external_id = dto.external_id;
              user_name = user_name;
              created_at = now;
              updated_at = now;
              bio = none;
              avatar = none;
            })
            w in
        elim created [
          | ok user ↦ (ok (auth_response jwt now user.id (some user)), w')
          | err _ ↦ (err (auth_unexpected_error "Failed to create new user"), w')
        ]
  ]

  unfoldable pub refresh_token : ℕ → ℕ → AuthResponse
  refresh_token now user_id = auth_response jwt now user_id none
