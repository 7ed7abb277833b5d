-- ===== src/RunService/Cancel/Closing.antt =====
-- What `CancelRun` leaves of a run's steps when it returns.
use hopeitworks.Prelude.{
  ◌≡◌, refl, sym, ap, ◌∙◌, subst, true, false, Option, some, none, List, ◌⊎◌, inl, inr, String,
  find, ◌==◌, Bool-cases, Elem, arith,
}
use hopeitworks.Errors.{ok}
use hopeitworks.Action.{◌>>◌, for_each}
use hopeitworks.Action.Relates.{bind_relates, if_relates}
use hopeitworks.Action.Returns.{bind_ends, lift_ends, require_ends}
use hopeitworks.Model.Status.{RunStatus, StoryStatus, validate_run_transition}
use hopeitworks.Model.Entities.{Uuid, uuid_nil, Time, ErrorText, Run, RunStep, Event, PayloadValue}
use hopeitworks.World.{World, call, step_at, step_has_id}
use hopeitworks.Repo.Runs.{get_run, list_run_steps_by_run, steps_of_run, update_run_status}
use hopeitworks.Repo.Rows.{get_story, update_story_status}
use hopeitworks.Repo.Outbox.{publish}
use hopeitworks.RunService.{Wiring, publish_run_event, publish_event, publish_story_event}
use hopeitworks.RunService.Cancel.{
  cancel_run, cancel_step, cancel_msg, transition_story_to_backlog, reset_story,
}
use hopeitworks.RunService.Cancel.Loop.{is_closed, loop-closes}
use hopeitworks.RunService.Cancel.Listing.{find-Elem, select-Elem, sort-Elem}

abbrev SameSteps : World → World → Type 0
SameSteps w v = v.run_steps ≡ w.run_steps

SameSteps-trans : (u v w : World) → SameSteps u v → SameSteps v w → SameSteps u w
SameSteps-trans u v w h k = k ∙ h

list-reads :
    (id : Uuid) (w v : World) (ss : List RunStep)
    → list_run_steps_by_run id w ≡ (ok ss, v)
    → (ss ≡ steps_of_run id w.run_steps) × (v.run_steps ≡ w.run_steps)
unfolding list_run_steps_by_run call
list-reads id w v ss h = ground arith

get_run-steps :
    (id : Uuid) (w v : World) (r : Run) → get_run id w ≡ (ok r, v) → v.run_steps ≡ w.run_steps
unfolding get_run call
get_run-steps id w v r h = ground arith

update_run_status-steps :
    (id : Uuid) (s : RunStatus) (a b c : Option Time) (e : Option ErrorText) (w v : World) (r : Run)
    → update_run_status id s a b c e w ≡ (ok r, v)
    → v.run_steps ≡ w.run_steps
unfolding update_run_status call
update_run_status-steps id s a b c e w v r h = ground arith

get_story-steps : (id : Uuid) (w : World) → SameSteps w (get_story id w).1
unfolding get_story call
get_story-steps id w = ground arith

update_story_status-steps :
    (id : Uuid) (s : StoryStatus) (w : World) → SameSteps w (update_story_status id s w).1
unfolding update_story_status call
update_story_status-steps id s w = ground arith

carry :
    (w v : World) (j : Uuid) (y : RunStep)
    → v.run_steps ≡ w.run_steps
    → step_at w j ≡ some y
    → step_at v j ≡ some y
unfolding step_at
carry w v j y same found = ap (find (step_has_id j)) same ∙ found

-- A stored step of the run is closed, or the loop over the listing meets it.
met :
    (j id : Uuid) (s : RunStep) (w v : World) (steps : List RunStep)
    → step_at w j ≡ some s
    → s.run_id ≡ id
    → steps ≡ steps_of_run id w.run_steps
    → (is_closed s.status ≡ true)
      ⊎ ((t : RunStep) × Elem t steps × (j ≡ t.id) × (is_closed t.status ≡ false))
unfolding step_at
met j id s w v steps found own listed = elim (Bool-cases (is_closed s.status)) [
  | inl c ↦ inl c
  | inr o ↦
      let (m, e) = find-Elem j w.run_steps s found in
      inr (
        s,
        subst (Elem s) (sym listed) (sort-Elem _ s (select-Elem id w.run_steps s own m)),
        sym e,
        o,
      )
]

publish-steps : (e : Event) (w : World) → (publish e w).1.run_steps ≡ w.run_steps
unfolding publish call
publish-steps e w = ground arith

module _ (svc : Wiring) where
  publish_event-steps : (e : Event) (w : World) → (publish_event svc e w).1.run_steps ≡ w.run_steps
  unfolding publish_event
  publish_event-steps e w = ground (arith, publish-steps e w)

  publish_run_event-steps :
      (p r : Uuid) (action : String) (payload : List (String × PayloadValue)) (w : World)
      → (publish_run_event svc p r action payload w).1.run_steps ≡ w.run_steps
  unfolding publish_run_event
  publish_run_event-steps p r action payload w = publish_event-steps _ w

  publish_story_event-steps :
      (p s r : Uuid) (status : String) (w : World)
      → SameSteps w (publish_story_event svc p s r status w).1
  unfolding publish_story_event
  publish_story_event-steps p s r status w = publish_event-steps _ w

  back_to_backlog :
      (r : Run) (w : World)
      → SameSteps w
          ((update_story_status r.story_id StoryStatus.backlog
              >> publish_story_event svc r.project_id r.story_id r.id "backlog")
            w).1
  back_to_backlog r w =
      bind_relates SameSteps (λ _. refl) SameSteps-trans
        (update_story_status r.story_id StoryStatus.backlog)
        (λ _. publish_story_event svc r.project_id r.story_id r.id "backlog") w
        (update_story_status-steps r.story_id StoryStatus.backlog w)
        λ _ _.
          publish_story_event-steps r.project_id r.story_id r.id "backlog"
            (update_story_status r.story_id StoryStatus.backlog w).1

  reset_story-steps :
      (r : Run) (t : StoryStatus) (w : World) → SameSteps w (reset_story svc r t w).1
  unfolding reset_story
  reset_story-steps r StoryStatus.backlog w = refl
  reset_story-steps r StoryStatus.running w = back_to_backlog r w
  reset_story-steps r StoryStatus.done w = back_to_backlog r w
  reset_story-steps r StoryStatus.failed w = back_to_backlog r w

  backlog-steps : (r : Run) (w : World) → SameSteps w (transition_story_to_backlog svc r w).1
  unfolding transition_story_to_backlog
  backlog-steps r w =
      if_relates SameSteps (λ _. refl) SameSteps-trans (r.story_id == uuid_nil) _ _ w (λ _. refl)
        λ _.
          bind_relates SameSteps (λ _. refl) SameSteps-trans (get_story r.story_id)
            (λ s. reset_story svc r s.status) w (get_story-steps r.story_id w)
            λ s _. reset_story-steps r s.status (get_story r.story_id w).1

  -- When `CancelRun` returns without an error, every step of the run that was stored before is still
  -- stored and is closed: it is neither pending nor running nor waiting for an approval.
  pub cancel_run-closes :
      (p id : Uuid) (w v : World) (r : Run)
      → cancel_run svc p id w ≡ (ok r, v)
      → (j : Uuid) (s : RunStep) → step_at w j ≡ some s
      → s.run_id ≡ id
      → (y : RunStep) × (step_at v j ≡ some y) × (is_closed y.status ≡ true)
  unfolding cancel_run
  cancel_run-closes p id w v r h j s found own = bind_ends (get_run id) _ w v r h λ q w1 got h1.
      require_ends (q.project_id == p) _ _ w1 v r h1 λ _ h2.
        lift_ends (validate_run_transition q.status RunStatus.cancelled) _ w1 v r h2 λ _ _ h3.
          bind_ends (list_run_steps_by_run id) _ w1 v r h3 λ steps w2 listed h4.
            bind_ends (for_each steps (cancel_step svc w2.clock)) _ w2 v r h4 λ _ w3 looped h5.
              bind_ends
                (update_run_status id RunStatus.cancelled none (some w2.clock) none cancel_msg) _ w3
                v r h5
                λ updated w4 set h6.
                  bind_ends (publish_run_event svc updated.project_id updated.id "cancelled" _) _ w4
                    v r h6
                    λ _ w5 told h7.
                      bind_ends (transition_story_to_backlog svc updated) _ w5 v r h7
                        λ _ w6 back h8.
                          let (as_listed, same2) = list-reads id w1 w2 steps listed in
                          let same1 = get_run-steps id w w1 q got in
                          let found2 = carry w w2 j s (same2 ∙ same1) found in
                          let (y, found3, closed) =
                            loop-closes svc w2.clock steps w2 w3 j s looped found2 (
                              met j id s w w2 steps found own
                                (as_listed ∙ ap (steps_of_run id) same1)) in
                          (
                            y,
                            carry w3 v j y
                                (ap (λ x. x.1.run_steps) (sym h8)
                                  ∙ (ap (λ x. x.1.run_steps) (sym back) ∙ backlog-steps updated w5)
                                  ∙ (ap (λ x. x.1.run_steps) (sym told)
                                      ∙ publish_run_event-steps updated.project_id updated.id
                                          "cancelled" _ w4)
                                  ∙ update_run_status-steps id RunStatus.cancelled none
                                      (some w2.clock) none cancel_msg w3 w4 updated set)
                                found3,
                            closed,
                          )
