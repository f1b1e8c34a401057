-- ===== src/Users/Keys.antt =====
-- Which keys a user storage lets in, after the operations that make keys.
use stack_deploy.Prelude.{
  String, ◌≡◌, refl, ◌∙◌, ap, subst, Bool, true, false, eq_refl, if◌then◌else◌,
}
use stack_deploy.Users.{
  User, UserRole, Table, Result, ok, err, user_exists, user_does_not_exist, save_user, save_keyed,
  get_user, check_key, is_admin, user_exist, create_user, refresh_token, is_admin_role, ◌>>=◌,
}

-- What Cassandra documents: an INSERT is seen by a SELECT of the row's key, and a SELECT gives a row
-- with the key that it asks for.
pub record IsTable {D : Type 0} (table : Table D) : Type 0 where
  pub upserts :
      (user : User) (db next : D)
      → table.insert user db ≡ ok next
      → table.select user.name next ≡ ok user
  pub selects :
      (name : String) (user : User) (db : D) → table.select name db ≡ ok user → user.name ≡ name

module _ {D : Type 0} (table : Table D) (laws : IsTable table) (sha : String → String) where
  -- The user `name` has the key `key` and the role `role`.
  abbrev pub HasKey : String → String → UserRole → D → Type 0
  HasKey name key role db =
      (check_key table sha name key db ≡ ok true)
      × (is_admin table sha name db ≡ ok (is_admin_role role))

  ok-bind :
      {A B : Type 0} (r : Result A) (f : A → Result B) (b : B)
      → (r >>= f) ≡ ok b
      → (a : A) × ((r ≡ ok a) × (f a ≡ ok b))
  ok-bind (ok a) f b h = (a, (refl, h))
  ok-bind (err e) f b h = cc

  save_user-HasKey :
      (user : User) (key : String) (db next : D)
      → user.key ≡ key
      → save_user table sha user db ≡ ok next
      → HasKey user.name key user.role next
  unfolding save_user check_key is_admin get_user
  save_user-HasKey user key db next e h =
      let there = laws.upserts (record user { key = sha user.key }) db next h in
      (rw (there, e) (ap ok (eq_refl (sha key))), rw there)

  -- What both operations end with.
  given-HasKey :
      (user : User) (uuid key : String) (db next : D)
      → user.key ≡ uuid
      → save_keyed table sha uuid user db ≡ ok (key, next)
      → HasKey user.name key user.role next
  given-HasKey user uuid key db next e h =
      let (after, (saved, same)) = ok-bind (save_user table sha user db) _ (key, next) h in
      let k : uuid ≡ key = cc in
      let n : after ≡ next = cc in
      subst (λ d. HasKey user.name key user.role d) n
        (save_user-HasKey user key db after (e ∙ k) saved)

  create-HasKey :
      (name : String) (role : UserRole) (uuid key : String) (db next : D) (exists : Bool)
      → (if exists
          then err (user_exists name)
          else save_keyed table sha uuid (record { name = name; key = uuid; role = role }) db)
        ≡ ok (key, next)
      → HasKey name key role next
  create-HasKey name role uuid key db next true h = cc
  create-HasKey name role uuid key db next false h =
      given-HasKey (record { name = name; key = uuid; role = role }) uuid key db next refl h

  -- A key that CreateUser gives is afterwards accepted for the user, who is an administrator
  -- exactly if that role was asked for. The session's SELECT sees its INSERT.
  pub create_user-HasKey :
      (name : String) (role : UserRole) (uuid key : String) (db next : D)
      → create_user table sha name role uuid db ≡ ok (key, next)
      → HasKey name key role next
  unfolding create_user
  create_user-HasKey name role uuid key db next h =
      let (exists, (counted, rest)) = ok-bind (user_exist table sha name db) _ (key, next) h in
      create-HasKey name role uuid key db next exists rest

  refresh-HasKey :
      (name uuid key : String) (user : User) (db next : D) (exists : Bool)
      → get_user table sha name db ≡ ok user
      → (if exists
          then (get_user table sha name db >>= λ found.
              save_keyed table sha uuid (record found { key = uuid }) db)
          else err (user_does_not_exist name))
        ≡ ok (key, next)
      → HasKey name key user.role next
  unfolding get_user
  refresh-HasKey name uuid key user db next false g h = cc
  refresh-HasKey name uuid key user db next true g h =
      let (found, (got, rest)) = ok-bind (get_user table sha name db) _ (key, next) h in
      let same : found ≡ user = cc in
      let named = laws.selects name user db g in
      subst (λ n. HasKey n key user.role next) named
        (given-HasKey (record user { key = uuid }) uuid key db next refl
          (subst (λ u. save_keyed table sha uuid (record u { key = uuid }) db ≡ ok (key, next)) same
            rest))

  -- A key that RefreshToken gives is afterwards accepted for the user, who keeps the role. The
  -- session's SELECT sees its INSERT, and gives a row with the name asked for.
  pub refresh_token-HasKey :
      (name uuid key : String) (user : User) (db next : D)
      → get_user table sha name db ≡ ok user
      → refresh_token table sha name uuid db ≡ ok (key, next)
      → HasKey name key user.role next
  unfolding refresh_token
  refresh_token-HasKey name uuid key user db next g h =
      let (exists, (counted, rest)) = ok-bind (user_exist table sha name db) _ (key, next) h in
      refresh-HasKey name uuid key user db next exists g rest
