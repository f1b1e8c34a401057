-- ===== src/Prelude/Text.antt =====
-- The operations of Go's `strings` and `strconv` that the program calls. A Go string is a text here,
-- a list of characters; the program never looks inside a multi-byte character.
use Prim.Native.Char.{code}
use Prim.Native.Nat.{ℕ, zero, suc, ◌+◌, ◌-◌, ◌*◌, ◌^◌}
use Prim.Native.String.{String, [], ◌∷◌, ◌++◌}
use mathlib.Core.Bool.{Bool, true, false, ◌&&◌, ◌||◌}
use mathlib.Core.List.{List}
use mathlib.Core.Option.{Option, none, some}
use stack_deploy.Prelude.Tests.{leb, ltb, eqb, if◌then◌else◌}
use stack_deploy.Prelude.Int.{ℤ, pos, negsuc}

-- strings.HasPrefix
abbrev pub has_prefix : String → String → Bool
has_prefix s [] = true
has_prefix [] (p ∷ ps) = false
has_prefix (c ∷ cs) (p ∷ ps) = eqb (code c) (code p) && has_prefix cs ps

-- strings.Contains
abbrev pub contains_text : String → String → Bool
contains_text [] old = has_prefix [] old
contains_text (c ∷ cs) old = has_prefix (c ∷ cs) old || contains_text cs old

abbrev pub size : String → ℕ
size [] = 0
size (c ∷ cs) = suc (size cs)

-- The loop of strings.Replace: `skip` characters of an occurrence that was replaced are passed over.
pub replace_from : ℕ → String → String → String → String
replace_from skip old new [] = []
replace_from (suc skip) old new (c ∷ cs) = replace_from skip old new cs
replace_from zero old new (c ∷ cs) =
    let hit = replace_from (size old - 1) old new cs in
    let miss = replace_from zero old new cs in
    if has_prefix (c ∷ cs) old then new ++ hit else c ∷ miss

-- strings.Replace(s, old, new, -1) for an `old` that is not empty.
unfoldable pub replace_all : String → String → String → String
unfolding replace_from
replace_all s old new = replace_from 0 old new s

-- strings.Index for a single character, as a split: what stands before its first occurrence and
-- what stands behind it. `none` is Index's -1.
unfoldable pub split_at_char : ℕ → String → Option (String × String)
split_at_char x [] = none
split_at_char x (c ∷ cs) =
    let rest = split_at_char x cs in
    if eqb (code c) x
    then some ([], cs)
    else elim rest [ none ↦ none | some (before, after) ↦ some (c ∷ before, after) ]

-- strings.Join
unfoldable pub join : List String → String → String
join List.[] sep = []
join (List.◌∷◌ s List.[]) sep = s
join (List.◌∷◌ s (List.◌∷◌ t ts)) sep = s ++ (sep ++ join (List.◌∷◌ t ts) sep)

-- The value of a run of decimal digits, `none` at any other character.
unfoldable pub digits_from : ℕ → String → Option ℕ
digits_from n [] = some n
digits_from n (c ∷ cs) =
    let rest = digits_from (n * 10 + (code c - 48)) cs in
    if leb 48 (code c) && leb (code c) 57 then rest else none

pub magnitude : String → Option ℕ
unfolding digits_from
magnitude [] = none
magnitude (c ∷ cs) = digits_from 0 (c ∷ cs)

-- A signed value must fit the 64 bits of `int`.
abbrev in_range : Bool → Option ℕ → Option ℤ
in_range negative none = none
in_range true (some zero) = some (pos 0)
in_range true (some (suc n)) = if ltb n (2 ^ 63) then some (negsuc n) else none
in_range false (some n) = if ltb n (2 ^ 63) then some (pos n) else none

-- strconv.Atoi: an optional sign and decimal digits; `none` is its error.
unfoldable pub atoi : String → Option ℤ
unfolding magnitude
atoi [] = none
atoi (c ∷ cs) =
    if eqb (code c) b'-'
    then in_range true (magnitude cs)
    else if eqb (code c) b'+'
    then in_range false (magnitude cs)
    else in_range false (magnitude (c ∷ cs))

-- The pieces of a text that `fmt.Sprintf` puts together.
abbrev pub concat : List String → String
concat List.[] = ""
concat (List.◌∷◌ s List.[]) = s
concat (List.◌∷◌ s (List.◌∷◌ t ts)) = s ++ concat (List.◌∷◌ t ts)

-- strings.HasSuffix(s, "/") with the cut that follows.
abbrev pub without_last_slash : String → String
without_last_slash [] = []
without_last_slash (c ∷ []) = if eqb (code c) b'/' then [] else c ∷ []
without_last_slash (c ∷ (d ∷ cs)) = c ∷ without_last_slash (d ∷ cs)

-- What the client makes of its host, and the state of the cluster of its master.
abbrev pub http_base : String → String
http_base host = without_last_slash (if has_prefix host "http://" then host else "http://" ++ host)
