-- ===== src/Users/Tests.antt =====
-- A table of users that is a list of rows, each under its name.
use stack_deploy.Prelude.{
  ℕ, String, ◌≡◌, refl, sym, Bool, true, false, Option, none, some, [], ◌∷◌, eq_refl, length,
}
use stack_deploy.Prelude.Text.{concat}
use stack_deploy.Map.{Map, lookup, insert, lookup-insert, contains}
use stack_deploy.Users.{
  User, user_regular, Table, Result, ok, err, not_found, create_user, refresh_token, user_exist,
  save_user, get_user,
}
use stack_deploy.Users.Keys.{IsTable, HasKey, create_user-HasKey, refresh_token-HasKey}

abbrev row_or_not_found : Option User → String → Result User
row_or_not_found none name = err not_found
row_or_not_found (some user) name = ok (record user { name = name })

abbrev bit : Bool → ℕ
bit true = 1
bit false = 0

abbrev rows : Table (Map User)
rows = record {
  insert = λ user db. ok (insert user.name user db);
  select = λ name db. row_or_not_found (lookup name db) name;
  count = λ db. ok (length db);
  count_name = λ name db. ok (bit (contains name db));
}

named_row :
    (o : Option User) (name : String) (user : User)
    → row_or_not_found o name ≡ ok user
    → user.name ≡ name
named_row none name user h = cc
named_row (some u) name user h = cc

upserted :
    (user : User) (db next : Map User)
    → rows.insert user db ≡ ok next
    → row_or_not_found (lookup user.name next) user.name ≡ ok user
upserted user db next h =
    let e : insert user.name user db ≡ next = cc in
    rw (sym e, lookup-insert user.name user.name user db, eq_refl user.name)

rows-IsTable : IsTable rows
rows-IsTable = record {
  upserts = λ user db next h. upserted user db next h;
  selects = λ name user db h. named_row (lookup name db) name user h;
}

-- For a hash, a text in front of the key.
abbrev hashed : String → String
hashed key = concat ("#" ∷ key ∷ [])

abbrev one_user : Map User
one_user = ("ann", record { name = "ann"; key = hashed "k1"; role = user_regular }) ∷ []

abbrev rekeyed : Map User
rekeyed = ("ann", record { name = "ann"; key = hashed "k2"; role = user_regular }) ∷ []

create_user-HasKey_example : HasKey rows rows-IsTable hashed "ann" "k1" user_regular one_user
unfolding create_user user_exist save_user lookup insert
create_user-HasKey_example =
    create_user-HasKey rows rows-IsTable hashed "ann" user_regular "k1" "k1" [] one_user refl

refresh_token-HasKey_example : HasKey rows rows-IsTable hashed "ann" "k2" user_regular rekeyed
unfolding refresh_token user_exist save_user get_user lookup insert
refresh_token-HasKey_example =
    refresh_token-HasKey rows rows-IsTable hashed "ann" "k2" "k2"
      (record { name = "ann"; key = hashed "k1"; role = user_regular }) one_user rekeyed refl refl
