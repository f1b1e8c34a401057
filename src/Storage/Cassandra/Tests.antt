-- ===== src/Storage/Cassandra/Tests.antt =====
-- A session on a list of rows, in which one stack extends another.
use stack_deploy.Prelude.{false, ℕ, suc, String, ◌≡◌, ◌↔◌, some, List, [], ◌∷◌, ◌==◌, if◌then◌else◌}
use stack_deploy.Stack.{Stack}
use stack_deploy.Storage.{Result, ok, err, stack_does_not_exist}
use stack_deploy.Storage.Cassandra.{Row, Session, get_stack}
use stack_deploy.Storage.Cassandra.Lines.{HasLine, get_stack-line}

find : String → List Row → Result Row
find name [] = err stack_does_not_exist
find name (row ∷ rows) = if row.name == name then ok row else find name rows

count_rows : String → List Row → ℕ
count_rows name [] = 0
count_rows name (row ∷ rows) =
    let rest = count_rows name rows in if row.name == name then suc rest else rest

children_names : String → List Row → List String
children_names parent [] = []
children_names parent (row ∷ rows) =
    let rest = children_names parent rows in if row.parent == parent then row.name ∷ rest else rest

without : String → List Row → List Row
without name [] = []
without name (row ∷ rows) =
    let rest = without name rows in if row.name == name then rest else row ∷ rest

abbrev listed : Session (List Row)
listed = record {
  select_all = λ rows. rows;
  select = find;
  count = λ name rows. ok (count_rows name rows);
  insert = λ row rows. ok (row ∷ without row.name rows);
  children = children_names;
  delete = λ name rows. ok (without name rows);
  marshal = λ applications. ok "{}";
  unmarshal = λ text. ok (false, []);
}

abbrev two_rows : List Row
two_rows =
    record { name = "base"; parent = ""; applications = "{}" }
    ∷ record { name = "shop"; parent = "base"; applications = "{}" }
    ∷ []

abbrev shop : Stack
shop = record {
  namespace = "";
  name = "shop";
  from = "";
  applications = [];
  nil_applications = false;
  layer = 0;
}

get_stack-line_example :
    (get_stack listed 2 "shop" two_rows ≡ some (ok shop)) ↔ HasLine listed two_rows 2 "shop" shop
get_stack-line_example = get_stack-line listed two_rows 2 "shop" shop
