-- ===== src/EpicRuns/Parked.antt =====
-- What a parked run means for its epic run: nothing, and so its dependents start.
use hopeitworks.Prelude.{◌≡◌, refl, ap, ◌∙◌, String, Bool, false, Option, none, some, find, arith}
use hopeitworks.Errors.{Result, ok}
use hopeitworks.Action.{caught, logged}
use hopeitworks.Model.Entities.{Uuid, Story, EpicRun, EpicRunStory}
use hopeitworks.World.{World, call, update_where}
use hopeitworks.World.Rows.{find-update_same}
use hopeitworks.Repo.Epics.{is_row_of, update_epic_run_story_status}
use hopeitworks.Repo.Outbox.{publish}
use hopeitworks.RunService.{Wiring}
use hopeitworks.Executor.{PipelineExecutor}
use hopeitworks.Executor.Execution.{execute_run, halted, awaiting_approval}
use hopeitworks.EpicRuns.Groups.{
  Phase, launched, returned, StoryError, execution_error, publish_event, publish_story_completed,
  after_execution, run_story,
}

completed_row : Uuid → EpicRunStory → EpicRunStory
completed_row run_id s = record s { status = "completed"; run_id = some run_id }

publish-rows :
    (r : EpicRun) (story_id run_id : Uuid) (status : String) (w : World)
    → (publish_story_completed r story_id run_id status w).1.epic_run_stories ≡ w.epic_run_stories
unfolding publish_story_completed publish_event logged publish call
publish-rows r story_id run_id status w = ground arith

update-rows :
    (id story_id run_id : Uuid) (w : World)
    → w.faults w.calls ≡ false
    → (logged
        (update_epic_run_story_status id story_id "completed" (some run_id))
        w).1.epic_run_stories
      ≡ update_where (is_row_of id story_id) (completed_row run_id) w.epic_run_stories
unfolding update_epic_run_story_status logged call completed_row
update-rows id story_id run_id w up = ground arith

row_after :
    (r : EpicRun) (id run_id : Uuid) (v : World) (row : EpicRunStory)
    → v.faults v.calls ≡ false
    → find (is_row_of r.id id) v.epic_run_stories ≡ some row
    → (u : World)
    → u.epic_run_stories
      ≡ (logged
          (update_epic_run_story_status r.id id "completed" (some run_id))
          v).1.epic_run_stories
    → find (is_row_of r.id id) u.epic_run_stories ≡ some (completed_row run_id row)
unfolding completed_row
row_after r id run_id v row up found u same =
    ap (find (is_row_of r.id id)) (same ∙ update-rows r.id id run_id v up)
    ∙ find-update_same (is_row_of r.id id) (completed_row run_id) (λ _. refl) v.epic_run_stories row
        found

module _ (svc : Wiring) (parse : String → Option Uuid) (e : PipelineExecutor) (r : EpicRun)
    (ctx : World → Bool) (s : Story) (id : Uuid) (w : World) where
  abbrev Settled : World → Result Phase × World → Type 0
  Settled v o =
      (o.0 ≡ ok (returned none))
      × ((row : EpicRunStory)
          → v.faults v.calls ≡ false
          → find (is_row_of r.id s.id) v.epic_run_stories ≡ some row
          → (row' : EpicRunStory) × (find (is_row_of r.id s.id) o.1.epic_run_stories ≡ some row')
            × (row'.status ≡ "completed"))

  nil-Settled :
      (x : Option StoryError) (v : World)
      → x ≡ none
      → Settled v (after_execution svc parse e r s.id id x v)
  unfolding after_execution logged completed_row
  nil-Settled (some x) v h = absurd (ground arith)
  nil-Settled none v h =
      let u = (logged (update_epic_run_story_status r.id s.id "completed" (some id)) v).1 in
      (
        refl,
        λ row up found. (
          completed_row id row,
          row_after r s.id id v row up found (publish_story_completed r s.id id "completed" u).1
              (publish-rows r s.id id "completed" u),
          refl,
        ),
      )

  -- A story whose run `ExecuteRun` leaves to wait for an approval counts as run: its goroutine returns
  -- nil, and, if the connection is up, its row in the epic run says "completed".
  pub parked_counts_as_completed :
      let o = execute_run (record e { is_cancelled = ctx }) id w in
      let o' = run_story svc parse e r ctx s (launched id) w in
      o.0 ≡ ok (halted awaiting_approval)
      → (o'.0 ≡ ok (returned none))
        × ((row : EpicRunStory)
            → o.1.faults o.1.calls ≡ false
            → find (is_row_of r.id s.id) o.1.epic_run_stories ≡ some row
            → (row' : EpicRunStory) × (find (is_row_of r.id s.id) o'.1.epic_run_stories ≡ some row')
              × (row'.status ≡ "completed"))
  unfolding run_story caught
  parked_counts_as_completed h =
      let o = execute_run (record e { is_cancelled = ctx }) id w in
      nil-Settled (execution_error o.0) o.1 (ap execution_error h)
