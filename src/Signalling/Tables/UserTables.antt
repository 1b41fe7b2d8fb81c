-- ===== src/Signalling/Tables/UserTables.antt =====
-- `UserRepositoryImpl` and `AuthRepositoryImpl` of signalling/src/features/user/repository.rs and
-- auth/repository.rs on the tables.
use waterbus_rs.Base.{
  ℕ, ◌+◌, Bool, true, false, not, ◌&&◌, ◌||◌, String, string_eq, str_eq, none, some, Result, ok,
  err, [], ◌∷◌, ◌++◌, ◌==◌, if◌then◌else◌, any,
}
use waterbus_rs.Action.{Action}
use waterbus_rs.Signalling.Models.{
  User, NewUser, UserError, user_name_not_found, user_unexpected_error, user_general, AuthError,
  auth_user_not_found, auth_unexpected_error, auth_general,
}
use waterbus_rs.Signalling.Repositories.{UserRepository, AuthRepository}
use waterbus_rs.Signalling.Tables.{
  Database, find, update_where, get_conn, find_user, table_get_user_by_id,
}

abbrev is_active : User → Bool
is_active u = elim u.deleted_at [ none ↦ true | some _ ↦ false ]

-- The unique indexes of users: names and external ids of users that are not deleted.
unfoldable pub has_name : String → User → Bool
has_name name u = str_eq u.user_name name && is_active u

unfoldable pub has_external_id : String → User → Bool
has_external_id id u = str_eq u.external_id id && is_active u

-- The update of a user, if it is there.
unfoldable pub updated_user : (User → User) → ℕ → Action Database UserError User
updated_user change id db = elim (get_conn db) [
  | err e ↦ (err (user_general e), db)
  | ok _ ↦ elim (find_user id db.users) [
    | none ↦ (err (user_unexpected_error "Cannot update username"), db)
    | some u ↦
        let stamped : User → User = λ x. record (change x) { updated_at = db.current_timestamp } in
        (ok (stamped u), record db { users = update_where (λ x. x.id == id) stamped db.users })
  ]
]

unfoldable pub table_update_user : User → Action Database UserError User
table_update_user user =
    updated_user
      (λ u. record u { full_name = user.full_name; avatar = user.avatar; bio = user.bio }) user.id

unfoldable pub table_get_username : String → Database → Result UserError String
table_get_username name db = elim (get_conn db) [
  | err e ↦ err (user_general e)
  | ok _ ↦ elim (find (λ u. str_eq u.user_name name) db.users) [
    | none ↦ err (user_name_not_found name)
    | some u ↦ ok u.user_name
  ]
]

-- A name that another user has is refused by the index.
unfoldable pub table_update_username : ℕ → String → Action Database UserError User
table_update_username id name db =
    if any (λ u. has_name name u && not (u.id == id)) db.users && db.is_connected
    then (err (user_unexpected_error "Cannot update username"), db)
    else updated_user (λ u. record u { user_name = name }) id db

unfoldable pub user_tables : UserRepository Database
user_tables = record {
  get_user_by_id = table_get_user_by_id;
  update_user = table_update_user;
  get_username = table_get_username;
  update_username = table_update_username;
}

abbrev pub user_row : ℕ → NewUser → User
user_row id new = record {
  id = id;
  full_name = new.full_name;
  user_name = new.user_name;
  bio = new.bio;
  external_id = new.external_id;
  avatar = new.avatar;
  created_at = new.created_at;
  updated_at = new.updated_at;
  deleted_at = none;
  last_seen_at = none;
}

unfoldable pub table_create_user : NewUser → Action Database AuthError User
table_create_user new db = elim (get_conn db) [
  | err e ↦ (err (auth_general e), db)
  | ok _ ↦
      if any (λ u. has_name new.user_name u || has_external_id new.external_id u) db.users
      then (err (auth_unexpected_error "Cannot insert user to DB"), db)
      else (
        ok (user_row db.next_user new),
        record db {
          users = db.users ++ user_row db.next_user new ∷ [];
          next_user = db.next_user + 1;
        },
      )
]

-- The user of a query, or an error that names an id.
unfoldable pub auth_user : (User → Bool) → ℕ → Database → Result AuthError User
auth_user p id db = elim (get_conn db) [
  | err e ↦ err (auth_general e)
  | ok _ ↦ elim (find p db.users) [ none ↦ err (auth_user_not_found id) | some u ↦ ok u ]
]

unfoldable pub auth_tables : AuthRepository Database
auth_tables = record {
  create_user = table_create_user;
  get_user_by_id = λ id. auth_user (λ u. u.id == id) id;
  get_user_by_auth_id = λ id. auth_user (λ u. str_eq u.external_id id) 0;
  get_user_by_user_name = λ name. auth_user (λ u. str_eq u.user_name name) 0;
}
