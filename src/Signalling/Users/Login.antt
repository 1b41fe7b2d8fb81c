-- ===== src/Signalling/Users/Login.antt =====
-- Logging in, and logging in again, in signalling/src/features/auth/service.rs.
use waterbus_rs.Base.{
  ℕ, ◌≡◌, refl, Bool, true, false, ◌||◌, String, string_eq, str_eq, eq_iff, none, some, ok, List,
  [], ◌∷◌, ◌++◌, any, arith, Bool-cases, inl, inr,
}
use waterbus_rs.Signalling.Models.{User, NewUser}
use waterbus_rs.Signalling.Repositories.{JwtUtils}
use waterbus_rs.Signalling.Tables.{Database, find, get_conn}
use waterbus_rs.Signalling.Tables.UserTables.{
  user_row, auth_user, auth_tables, table_create_user, has_name, has_external_id,
}
use waterbus_rs.Signalling.Users.{CreateTokenDto, auth_response, login_with_social}

find-last :
    {A : Type 0} (p : A → Bool) (xs : List A) (x : A)
    → find p xs ≡ none
    → p x ≡ true
    → find p (xs ++ x ∷ []) ≡ some x
unfolding find
find-last p [] x absent passes = ground (arith, passes)
find-last p (y ∷ ys) x absent passes = elim (Bool-cases (p y)) [
  | inl e ↦ ground (arith, e, absent)
  | inr e ↦ ground (arith, e, absent, passes, find-last p ys x)
]

-- On a database that is connected, whoever logs in for the first time, with a name and an external id
-- that no user has, becomes a user, and is answered with it and its tokens of this time; whoever logs
-- in with the same external id afterwards is answered with the same user and its tokens of the later
-- time, whatever name is drawn then, and nothing is written.
pub logged_in_again :
    (jwt : JwtUtils) (name other : String) (now later : ℕ) (dto again : CreateTokenDto)
    (db : Database)
    → db.is_connected ≡ true
    → find (λ u. str_eq u.external_id dto.external_id) db.users ≡ none
    → any (λ u. has_name name u || has_external_id dto.external_id u) db.users ≡ false
    → again.external_id ≡ dto.external_id
    → (let one = login_with_social auth_tables jwt name now dto db in
        let two = login_with_social auth_tables jwt other later again one.1 in
        (user : User) × (one.0 ≡ ok (auth_response jwt now user.id (some user)))
        × (user.external_id ≡ dto.external_id)
        × (two ≡ (ok (auth_response jwt later user.id (some user)), one.1)))
unfolding login_with_social auth_tables table_create_user auth_user get_conn
logged_in_again jwt name other now later dto again db connected absent free same =
    let new : NewUser = record {
      full_name = some dto.full_name;
      external_id = dto.external_id;
      user_name = name;
      created_at = now;
      updated_at = now;
      bio = none;
      avatar = none;
    } in
    let user = user_row db.next_user new in
    let found =
      find-last (λ u. str_eq u.external_id dto.external_id) db.users user absent
        (ground (arith, eq_iff dto.external_id dto.external_id)) in
    (
      user,
      ground (arith, connected, absent, free),
      refl,
      rw same (ground (arith, connected, absent, free, found)),
    )
