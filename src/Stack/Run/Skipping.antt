-- ===== src/Stack/Run/Skipping.antt =====
-- markSkippedApps: what it leaves behind, and when it waits for ever.
use stack_deploy.Prelude.{
  ℕ, ◌+◌, ◌<◌, ◌≤◌, String, ◌≡◌, ◌≢◌, refl, true, some, none, List, [], ◌∷◌, ◌++◌, arith, eq_iff,
  All, All-append, length, length-append, ltb, Bool-cases, inl, inr, subst, lt→ltb, length_pos,
}
use stack_deploy.Map.{Map, lookup, insert, lookup-insert}
use stack_deploy.Constraints.{Regexps}
use stack_deploy.Application.{Application, ApplicationStatus, running}
use stack_deploy.Stack.{Stack}
use stack_deploy.Stack.Run.{
  RunStatus, Marked, marked, failed_with, blocked, mark_matching, and_then, mark_skipped_apps,
}
use stack_deploy.Stack.Run.Live.{queued, queued-append}

-- An application is marked as running exactly if its status is in the channel, and no status is a
-- failure.
pub record IsMarked (m : Map ApplicationStatus) (statuses : List RunStatus) : Type 0 where
  pub marks :
      (id : String) (x : ApplicationStatus)
      → lookup id m ≡ some x
      → (x ≡ running) × (0 < queued id statuses)
  pub unmarked : (id : String) → lookup id m ≡ none → queued id statuses ≡ 0
  pub errorless : All (λ status. status.error ≡ none) statuses

abbrev pub OnMarked : Marked → Type 0
OnMarked (marked m statuses) = IsMarked m statuses
OnMarked _ = Unit

mark-IsMarked :
    (app : Application) (m : Map ApplicationStatus) (statuses : List RunStatus)
    → IsMarked m statuses
    → IsMarked
        (insert app.id running m)
        (statuses ++ record { application = app; error = none } ∷ [])
mark-IsMarked app m statuses v = record {
  marks = λ id x h. (
    ground (arith, eq_iff app.id id, lookup-insert app.id id running m, v.marks id x),
    ground (
      arith,
      eq_iff app.id id,
      lookup-insert app.id id running m,
      v.marks id x,
      queued-append id statuses (record { application = app; error = none }),
    ),
  );
  unmarked = λ id h. ground (
    arith,
    eq_iff app.id id,
    lookup-insert app.id id running m,
    v.unmarked id,
    queued-append id statuses (record { application = app; error = none }),
  );
  errorless =
      All-append (λ status. status.error ≡ none) statuses
        (record { application = app; error = none } ∷ []) v.errorless (refl, tt);
}

mark_matching-IsMarked :
    (re : Regexps) (room : ℕ) (pattern : String) (apps : Map Application)
    (m : Map ApplicationStatus) (statuses : List RunStatus)
    → IsMarked m statuses
    → OnMarked (mark_matching re room pattern apps m statuses)
unfolding mark_matching
mark_matching-IsMarked re room pattern [] m statuses v = v
mark_matching-IsMarked re room pattern ((name, app) ∷ apps) m statuses v =
    elim (Bool-cases (re.match_string pattern app.id)) [
      | inr other ↦ rw other (mark_matching-IsMarked re room pattern apps m statuses v)
      | inl skipped ↦ elim (Bool-cases (ltb (length statuses) room)) [
        | inr full ↦ rw (skipped, full) tt
        | inl free ↦
            rw (skipped, free)
              (mark_matching-IsMarked re room pattern apps _ _ (mark-IsMarked app m statuses v))
      ]
    ]

and_then-IsMarked :
    (r : Marked) (next : Map ApplicationStatus → List RunStatus → Marked)
    → OnMarked r
    → ((m : Map ApplicationStatus) (ss : List RunStatus) → IsMarked m ss → OnMarked (next m ss))
    → OnMarked (and_then r next)
and_then-IsMarked (marked m ss) next v f = f m ss v
and_then-IsMarked (failed_with e) next v f = tt
and_then-IsMarked blocked next v f = tt

mark_skipped_apps-IsMarked_from :
    (re : Regexps) (s : Stack) (patterns : List String) (m : Map ApplicationStatus)
    (statuses : List RunStatus)
    → IsMarked m statuses
    → OnMarked (mark_skipped_apps re s patterns m statuses)
unfolding mark_skipped_apps
mark_skipped_apps-IsMarked_from re s [] m statuses v = v
mark_skipped_apps-IsMarked_from re s (p ∷ ps) m statuses v = elim (Bool-cases (re.compiles p)) [
  | inl good ↦ rw good (
      and_then-IsMarked _ (mark_skipped_apps re s ps)
        (mark_matching-IsMarked re (length s.applications) p s.applications m statuses v)
        (mark_skipped_apps-IsMarked_from re s ps))
  | inr bad ↦ rw bad tt
]

-- When markSkippedApps ends without an error, an id is marked exactly if a status of it is in the
-- channel, every mark is that it runs, and no status is a failure.
pub mark_skipped_apps-IsMarked :
    (re : Regexps) (s : Stack) (patterns : List String) (m : Map ApplicationStatus)
    (statuses : List RunStatus)
    → mark_skipped_apps re s patterns [] [] ≡ marked m statuses
    → IsMarked m statuses
unfolding lookup
mark_skipped_apps-IsMarked re s patterns m statuses e = subst OnMarked e (
    mark_skipped_apps-IsMarked_from re s patterns [] []
      (record { marks = λ id x h. cc; unmarked = λ id h. refl; errorless = tt }))

-- Sends of one pattern that every application matches: one for each, as long as there is room.
mark_matching_full :
    (re : Regexps) (room : ℕ) (pattern : String) (apps : Map Application)
    (m : Map ApplicationStatus) (statuses : List RunStatus)
    → All (λ row. re.match_string pattern row.1.id ≡ true) apps
    → room < length statuses + length apps
    → length statuses ≤ room
    → mark_matching re room pattern apps m statuses ≡ blocked
unfolding mark_matching
mark_matching_full re room pattern [] m statuses h over under = absurd (omega arith)
mark_matching_full re room pattern ((name, app) ∷ apps) m statuses h over under =
    rw h.0 (elim (Bool-cases (ltb (length statuses) room)) [
      | inr full ↦ rw full
      | inl free ↦ rw free (
          mark_matching_full re room pattern apps _ _ h.1
            (omega
              (arith, length-append statuses (record { application = app; error = none } ∷ [])))
            (ground
              (arith, length-append statuses (record { application = app; error = none } ∷ []))))
    ])

mark_matching_room :
    (re : Regexps) (room : ℕ) (pattern : String) (apps : Map Application)
    (m : Map ApplicationStatus) (statuses : List RunStatus)
    → All (λ row. re.match_string pattern row.1.id ≡ true) apps
    → length statuses + length apps ≤ room
    → (m' : Map ApplicationStatus) × (ss : List RunStatus) × (mark_matching re room pattern apps m
          statuses
        ≡ marked m' ss)
      × (length ss ≡ length statuses + length apps)
unfolding mark_matching
mark_matching_room re room pattern [] m statuses h fits = (m, statuses, refl, omega arith)
mark_matching_room re room pattern ((name, app) ∷ apps) m statuses h fits =
    let sent : List RunStatus = statuses ++ record { application = app; error = none } ∷ [] in
    let (m', ss, e, l) =
      mark_matching_room re room pattern apps (insert app.id running m) sent h.1
        (omega (arith, length-append statuses (record { application = app; error = none } ∷ []))) in
    (
      m',
      ss,
      rw (h.0, lt→ltb (length statuses) room (omega arith)) e,
      omega (arith, length-append statuses (record { application = app; error = none } ∷ [])),
    )

-- Two patterns that compile and both match every application of a stack that has one send more
-- statuses than the channel has room for: the run waits for ever before anything receives.
pub mark_skipped_apps_blocked :
    (re : Regexps) (s : Stack) (first second : String) (more : List String)
    → re.compiles first ≡ true
    → re.compiles second ≡ true
    → All (λ row. re.match_string first row.1.id ≡ true) s.applications
    → All (λ row. re.match_string second row.1.id ≡ true) s.applications
    → s.applications ≢ []
    → mark_skipped_apps re s (first ∷ second ∷ more) [] [] ≡ blocked
unfolding mark_skipped_apps
mark_skipped_apps_blocked re s first second more c d h k ne =
    let (m, ss, e, l) =
      mark_matching_room re (length s.applications) first s.applications [] [] h (omega arith) in
    rw (
      c,
      e,
      d,
      mark_matching_full re (length s.applications) second s.applications m ss k
          (omega (arith, length_pos s.applications ne)) (omega arith),
    )
