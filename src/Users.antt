-- ===== src/Users.antt =====
-- framework/user_storage.go: the users of the API. The Cassandra session is the parameter `Table`:
-- what the three queries on the table of users give, which may fail with the session's error.
pub mod Keys
mod Tests
use stack_deploy.Prelude.{
  ℕ, String, Bool, true, false, not, Option, none, some, ◌==◌, eqb, ltb, if◌then◌else◌,
}

pub data UserRole : Type 0 where
  user_admin user_regular : UserRole

pub record User : Type 0 where
  pub name : String
  pub key : String
  pub role : UserRole

-- The errors of the session, of a user who is there already, and of one who is not. `not_found` is
-- the session's error for a SELECT without a row.
pub data Error : Type 0 where
  session_error : String → Error
  not_found : Error
  user_exists user_does_not_exist : String → Error

pub data Result {ℓ} (A : Type ℓ) : Type ℓ where
  ok : A → Result A
  err : Error → Result A

-- A session on a state `D` of the database: INSERT, SELECT by name, and the two COUNTs. An INSERT
-- with the name of a row that is there replaces the row.
pub record Table (D : Type 0) : Type 0 where
  pub insert : User → D → Result D
  pub select : String → D → Result User
  pub count : D → Result ℕ
  pub count_name : String → D → Result ℕ

infixl 5 ◌>>=◌
abbrev pub ◌>>=◌ {ℓ κ} : {A : Type ℓ} {B : Type κ} → Result A → (A → Result B) → Result B
ok a >>= f = f a
err e >>= f = err e

-- User.UnmarshalJSON: any role but "admin" is a regular user's.
unfoldable pub role_of : String → UserRole
role_of role = if role == "admin" then user_admin else user_regular

abbrev pub is_admin_role : UserRole → Bool
is_admin_role user_admin = true
is_admin_role user_regular = false

-- `sha` is the hex text of crypto/sha1's sum.
module _ {D : Type 0} (table : Table D) (sha : String → String) where
  unfoldable pub save_user : User → D → Result D
  save_user user db = table.insert (record user { key = sha user.key }) db

  unfoldable pub get_user : String → D → Result User
  get_user name db = table.select name db

  unfoldable pub check_key : String → String → D → Result Bool
  unfolding get_user
  check_key name key db = get_user name db >>= λ user. ok (user.key == sha key)

  unfoldable pub is_admin : String → D → Result Bool
  unfolding get_user
  is_admin name db = get_user name db >>= λ user. ok (is_admin_role user.role)

  unfoldable pub user_exist : String → D → Result Bool
  user_exist name db = table.count_name name db >>= λ n. ok (ltb 0 n)

  unfoldable pub is_empty : D → Result Bool
  is_empty db = table.count db >>= λ n. ok (eqb n 0)

  abbrev pub save_keyed : String → User → D → Result (String × D)
  save_keyed uuid user db = save_user user db >>= λ next. ok (uuid, next)

  -- CreateUser and RefreshToken give the new key, `uuid`, with the table; the table keeps its hash.
  unfoldable pub create_user : String → UserRole → String → D → Result (String × D)
  unfolding user_exist save_user
  create_user name role uuid db = user_exist name db >>= λ exists.
      if exists
      then err (user_exists name)
      else save_keyed uuid (record { name = name; key = uuid; role = role }) db

  unfoldable pub refresh_token : String → String → D → Result (String × D)
  unfolding user_exist save_user get_user
  refresh_token name uuid db = user_exist name db >>= λ exists.
      if exists
      then (get_user name db >>= λ user. save_keyed uuid (record user { key = uuid }) db)
      else err (user_does_not_exist name)

  unfoldable pub create_admin : String → D → Result (String × D)
  unfolding create_user
  create_admin uuid db = create_user "admin" user_admin uuid db

  -- Init, once the table exists: an empty table gets an administrator, whose key is returned.
  unfoldable pub init : String → D → Result (String × D)
  unfolding is_empty create_admin
  init uuid db = is_empty db >>= λ empty. if empty then create_admin uuid db else ok ("", db)
