-- ===== src/Repo/Epics.antt =====
-- Epics and epic runs: adapter/postgres/epic_repo.go, epic_run_repository.go and `ListByEpic` of
-- story_repo.go, over queries/epics.sql, epic_runs.sql and stories.sql.
use hopeitworks.Prelude.{
  ℕ, zero, suc, ◌+◌, String, Bool, true, false, ◌&&◌, ◌||◌, not, Option, none, some, List, [], ◌∷◌,
  ◌++◌, select, find, ltb, ◌==◌, if◌then◌else◌,
}
use hopeitworks.Errors.{ok, err, epic, epic_run, project_or_epic, new_not_found, new_internal}
use hopeitworks.Model.Status.{EpicRunStatus}
use hopeitworks.Model.Entities.{Uuid, Time, Story, Epic, EpicRun, EpicRunStory}
use hopeitworks.World.{World, M, call, update_where, project_at, story_at}

abbrev pub epic_has_id : Uuid → Epic → Bool
epic_has_id id e = e.id == id

abbrev pub epic_run_has_id : Uuid → EpicRun → Bool
epic_run_has_id id r = r.id == id

unfoldable pub epic_at : World → Uuid → Option Epic
epic_at w id = find (epic_has_id id) w.epics

unfoldable pub epic_run_at : World → Uuid → Option EpicRun
epic_run_at w id = find (epic_run_has_id id) w.epic_runs

-- SELECT * FROM epics WHERE id = $1
unfoldable pub get_epic : Uuid → M Epic
get_epic id =
    call λ w. elim (epic_at w id) [ none ↦ (err (new_not_found epic), w) | some e ↦ (ok e, w) ]

-- `epic_id = $1`, where NULL is equal to nothing.
abbrev pub is_of_epic : Uuid → Option Uuid → Bool
is_of_epic id none = false
is_of_epic id (some e) = e == id

-- ORDER BY created_at DESC
abbrev pub insert_story : Story → List Story → List Story
insert_story s [] = s ∷ []
insert_story s (t ∷ ts) =
    if ltb s.created_at t.created_at then t ∷ insert_story s ts else s ∷ t ∷ ts

abbrev pub sort_stories : List Story → List Story
sort_stories [] = []
sort_stories (s ∷ ss) = insert_story s (sort_stories ss)

-- LIMIT n OFFSET m
abbrev pub limited {ℓ} : {A : Type ℓ} → ℕ → ℕ → List A → List A
limited n m [] = []
limited zero m (x ∷ xs) = []
limited (suc n) zero (x ∷ xs) = x ∷ limited n zero xs
limited (suc n) (suc m) (x ∷ xs) = limited (suc n) m xs

abbrev pub epic_stories : Uuid → List Story → List Story
epic_stories id stories = sort_stories (select (λ (s : Story). is_of_epic id s.epic_id) stories)

unfoldable pub list_by_epic : Uuid → ℕ → ℕ → M (List Story)
list_by_epic id limit offset = call λ w. (ok (limited limit offset (epic_stories id w.stories)), w)

-- The inserted row.
abbrev pub new_epic_run : Uuid → Uuid → EpicRunStatus → World → EpicRun
new_epic_run project_id epic_id status w = record {
  id = w.next_id;
  project_id = project_id;
  epic_id = epic_id;
  status = status;
  created_at = w.clock;
  completed_at = none;
}

-- INSERT INTO epic_runs; a missing project or epic violates a foreign key.
unfoldable pub create_epic_run : Uuid → Uuid → EpicRunStatus → M EpicRun
create_epic_run project_id epic_id status = call λ w. elim (project_at w project_id) [
  | none ↦ (err (new_not_found project_or_epic), w)
  | some _ ↦ elim (epic_at w epic_id) [
    | none ↦ (err (new_not_found project_or_epic), w)
    | some _ ↦
        let r = new_epic_run project_id epic_id status w in
        (ok r, record w { epic_runs = w.epic_runs ++ r ∷ []; next_id = w.next_id + 1 })
  ]
]

-- SELECT * FROM epic_runs WHERE id = $1
unfoldable pub get_epic_run_row : Uuid → M EpicRun
get_epic_run_row id =
    call
      λ w. elim (epic_run_at w id) [ none ↦ (err (new_not_found epic_run), w) | some r ↦ (ok r, w) ]

abbrev pub with_epic_run_status : EpicRunStatus → Option Time → EpicRun → EpicRun
with_epic_run_status status completed_at r = record r {
  status = status;
  completed_at = completed_at;
}

-- UPDATE epic_runs SET status = $1, completed_at = $2 WHERE id = $3 RETURNING *
unfoldable pub update_epic_run_status : Uuid → EpicRunStatus → Option Time → M EpicRun
update_epic_run_status id status completed_at =
    let f = with_epic_run_status status completed_at in
    call λ w. elim (epic_run_at w id) [
      | none ↦ (err (new_not_found epic_run), w)
      | some r ↦
          (ok (f r), record w { epic_runs = update_where (epic_run_has_id id) f w.epic_runs })
    ]

abbrev pub is_row_of : Uuid → Uuid → EpicRunStory → Bool
is_row_of epic_run_id story_id s = s.epic_run_id == epic_run_id && s.story_id == story_id

abbrev pub is_present {ℓ} : {A : Type ℓ} → Option A → Bool
is_present none = false
is_present (some a) = true

-- INSERT INTO epic_run_stories; the key is the epic run and the story, and both must exist.
unfoldable pub insert_epic_run_story : EpicRunStory → M (Unit {0})
insert_epic_run_story s = call λ w.
    if is_present (find (is_row_of s.epic_run_id s.story_id) w.epic_run_stories)
      || not (is_present (epic_run_at w s.epic_run_id))
      || not (is_present (story_at w s.story_id))
    then (err new_internal, w)
    else (ok tt, record w { epic_run_stories = w.epic_run_stories ++ s ∷ [] })

-- UPDATE epic_run_stories SET status = $1, run_id = $2 WHERE ...; no row is no error.
unfoldable pub update_epic_run_story_status : Uuid → Uuid → String → Option Uuid → M (Unit {0})
update_epic_run_story_status epic_run_id story_id status run_id = call λ w. (
  ok tt,
  record w {
    epic_run_stories =
        update_where (is_row_of epic_run_id story_id)
          (λ (s : EpicRunStory). record s { status = status; run_id = run_id }) w.epic_run_stories;
  },
)

-- ORDER BY group_index, story_id
abbrev pub insert_row : EpicRunStory → List EpicRunStory → List EpicRunStory
insert_row s [] = s ∷ []
insert_row s (t ∷ ts) =
    if ltb t.group_index s.group_index
      || (t.group_index == s.group_index && ltb t.story_id s.story_id)
    then t ∷ insert_row s ts
    else s ∷ t ∷ ts

abbrev pub sort_rows : List EpicRunStory → List EpicRunStory
sort_rows [] = []
sort_rows (s ∷ ss) = insert_row s (sort_rows ss)

unfoldable pub list_epic_run_stories : Uuid → M (List EpicRunStory)
list_epic_run_stories id =
    call λ w.
      (ok (sort_rows (select (λ (s : EpicRunStory). s.epic_run_id == id) w.epic_run_stories)), w)
