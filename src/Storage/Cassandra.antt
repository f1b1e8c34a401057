-- ===== src/Storage/Cassandra.antt =====
-- CassandraStorage of framework/storage.go over a parameter for the session: the rows of stacks,
-- which name their parents, and the stack that a line of ancestors is merged into.
pub mod Lines
mod Tests
use stack_deploy.Prelude.{
  ℕ, zero, suc, String, Bool, true, false, Option, none, some, List, [], ◌∷◌, ◌==◌, ltb,
  if◌then◌else◌,
}
use stack_deploy.Map.{Map}
use stack_deploy.Application.{Application}
use stack_deploy.Stack.{Stack}
use stack_deploy.Stack.Merge.{merge}
use stack_deploy.Storage.{
  Result, ok, err, ◌>>=◌, stack_exists, stack_does_not_exist, or_panics, has_children,
  parent_does_not_exist,
}

-- A row of the table of stacks. The applications are a yaml text.
pub record Row : Type 0 where
  pub name : String
  pub parent : String
  pub applications : String

-- The queries on a state `D` of the database: the SELECTs of all rows and of one, the COUNT of a
-- name, the INSERT, the names of the rows with a parent, and the DELETE. And yaml, which writes and
-- reads the applications, and tells whether the map that it reads is nil.
pub record Session (D : Type 0) : Type 0 where
  pub select_all : D → List Row
  pub select : String → D → Result Row
  pub count : String → D → Result ℕ
  pub insert : Row → D → Result D
  pub children : String → D → List String
  pub delete : String → D → Result D
  pub marshal : Map Application → Result String
  pub unmarshal : String → Result (Bool × Map Application)

module _ {D : Type 0} (session : Session D) where
  unfoldable pub exists : String → D → Result Bool
  exists name db = session.count name db >>= λ n. ok (ltb 0 n)

  -- The loop of GetAll.
  unfoldable pub get_each : List Row → Result (List Stack)
  get_each [] = ok []
  get_each (row ∷ rows) =
      let rest = get_each rows in
      session.unmarshal row.applications >>= λ (is_nil, applications). rest >>= λ stacks. ok (
        record {
          namespace = "";
          name = row.name;
          from = row.parent;
          applications = applications;
          nil_applications = is_nil;
          layer = 0;
        }
        ∷ stacks)

  unfoldable pub get_all : D → Result (List Stack)
  unfolding get_each
  get_all db = get_each (session.select_all db)

  -- The parent and the stack of a row. GetStack fills neither `From` nor `Layer`.
  unfoldable pub read : String → D → Result (String × Stack)
  read name db = session.select name db >>= λ row.
      session.unmarshal row.applications >>= λ (is_nil, applications). ok (
        row.parent,
        record {
          namespace = "";
          name = row.name;
          from = "";
          applications = applications;
          nil_applications = is_nil;
          layer = 0;
        },
      )

  abbrev onto_parent : Option (Result Stack) → Stack → Option (Result Stack)
  onto_parent none s = none
  onto_parent (some (err e)) s = some (err e)
  onto_parent (some (ok parent)) s = some (or_panics (merge parent s))

  -- `fuel` bounds the length of the line of ancestors; `none` is a longer one, or one without end.
  unfoldable pub get_stack : ℕ → String → D → Option (Result Stack)
  unfolding read merge
  get_stack zero name db = none
  get_stack (suc fuel) name db = elim (read name db) [
    | err e ↦ some (err e)
    | ok (parent, s) ↦ elim (parent == "") [
      | true ↦ some (ok s)
      | false ↦ onto_parent (get_stack fuel parent db) s
    ]
  ]

  -- An error of the COUNT counts as a parent that is not there.
  abbrev parent_found : Result Bool → Result (Unit {0})
  parent_found (ok true) = ok tt
  parent_found (ok false) = err parent_does_not_exist
  parent_found (err e) = err parent_does_not_exist

  unfoldable pub store_stack : Stack → D → Result D
  unfolding exists
  store_stack s db = exists s.name db >>= λ there.
      if there
      then err stack_exists
      else ((if s.from == "" then ok tt else parent_found (exists s.from db)) >>= λ found.
          session.marshal s.applications >>= λ text.
          session.insert (record { name = s.name; parent = s.from; applications = text }) db)

  abbrev and_then : Option (Result D) → (D → Option (Result D)) → Option (Result D)
  and_then none next = none
  and_then (some (err e)) next = some (err e)
  and_then (some (ok db)) next = next db

  unfoldable pub remove_each :
      (String → D → Option (Result D)) → List String → D → Option (Result D)
  remove_each rm [] db = some (ok db)
  remove_each rm (child ∷ children) db = and_then (rm child db) (remove_each rm children)

  abbrev remove_childless : String → List String → D → Result D
  remove_childless name [] db = session.delete name db
  remove_childless name (child ∷ children) db = err (has_children name (child ∷ children))

  -- remove, on fuel for the depth of the recursion. The names of the children are read before any
  -- of them is removed. Of a removal that fails, what it removed before is not kept here.
  unfoldable pub remove : ℕ → String → Bool → D → Option (Result D)
  unfolding remove_each
  remove zero name force db = none
  remove (suc fuel) name true db =
      and_then (remove_each (λ child. remove fuel child true) (session.children name db) db)
        (λ left. some (session.delete name left))
  remove (suc fuel) name false db = some (remove_childless name (session.children name db) db)

  abbrev if_there : Result Bool → Option (Result D) → Option (Result D)
  if_there (err e) next = some (err e)
  if_there (ok false) next = some (err stack_does_not_exist)
  if_there (ok true) next = next

  unfoldable pub remove_stack : ℕ → String → Bool → D → Option (Result D)
  unfolding exists remove
  remove_stack fuel name force db = if_there (exists name db) (remove fuel name force db)
