-- ===== src/Repo/Quiet.antt =====
-- Calls that leave runs, steps, gates and the connection alone.
use hopeitworks.Prelude.{String, ◌≡◌, refl, ◌∙◌, Bool, Option, if◌then◌else◌, arith}
use hopeitworks.Action.{◌>>=◌, caught, logged}
use hopeitworks.Action.Relates.{bind_relates, if_relates, caught_relates, logged_relates}
use hopeitworks.Model.Status.{StoryStatus}
use hopeitworks.Model.Entities.{Uuid, Event}
use hopeitworks.World.{World, M, Job, call}
use hopeitworks.World.Moves.{Keeps}
use hopeitworks.Repo.Rows.{
  get_story, update_story_status, update_story_current_stage, set_writeback_status, get_project,
  increment_circuit_breaker_count, reset_circuit_breaker,
}
use hopeitworks.Repo.Outbox.{publish, enqueue}

abbrev pub Quiet : World → World → Type 0
Quiet v w =
    (w.runs ≡ v.runs)
    × (w.run_steps ≡ v.run_steps)
    × (w.hitl_requests ≡ v.hitl_requests)
    × (w.faults ≡ v.faults)

pub Quiet-refl : (w : World) → Quiet w w
Quiet-refl w = (refl, refl, refl, refl)

pub Quiet-trans : (u v w : World) → Quiet u v → Quiet v w → Quiet u w
Quiet-trans u v w (a, b, c, d) (a', b', c', d') = (a' ∙ a, b' ∙ b, c' ∙ c, d' ∙ d)

pub Quiet-Keeps : (v w : World) → Quiet v w → Keeps v w
Quiet-Keeps v w h = h.0

module _ {A B : Type 0} where
  pub then_Quiet :
      (m : M A) (f : A → M B) (w : World)
      → Quiet w (m w).1
      → ((a : A) (v : World) → Quiet v (f a v).1)
      → Quiet w ((m >>= f) w).1
  then_Quiet m f w h k = bind_relates Quiet Quiet-refl Quiet-trans m f w h λ a _. k a (m w).1

module _ {A : Type 0} where
  pub if-Quiet :
      (b : Bool) (m n : M A) (w : World)
      → Quiet w (m w).1
      → Quiet w (n w).1
      → Quiet w ((if b then m else n) w).1
  if-Quiet b m n w h k = if_relates Quiet Quiet-refl Quiet-trans b m n w (λ _. h) (λ _. k)

  pub caught-Quiet : (m : M A) (w : World) → Quiet w (m w).1 → Quiet w (caught m w).1
  caught-Quiet = caught_relates Quiet Quiet-refl Quiet-trans

  pub logged-Quiet : (m : M A) (w : World) → Quiet w (m w).1 → Quiet w (logged m w).1
  logged-Quiet = logged_relates Quiet Quiet-refl Quiet-trans

pub publish-Quiet : (e : Event) (w : World) → Quiet w (publish e w).1
unfolding publish call
publish-Quiet e w = ground arith

pub enqueue-Quiet : (j : Job) (w : World) → Quiet w (enqueue j w).1
unfolding enqueue call
enqueue-Quiet j w = ground arith

pub get_story-Quiet : (id : Uuid) (w : World) → Quiet w (get_story id w).1
unfolding get_story call
get_story-Quiet id w = ground arith

pub update_story_status-Quiet :
    (id : Uuid) (s : StoryStatus) (w : World) → Quiet w (update_story_status id s w).1
unfolding update_story_status call
update_story_status-Quiet id s w = ground arith

pub update_story_current_stage-Quiet :
    (id : Uuid) (s : Option String) (w : World) → Quiet w (update_story_current_stage id s w).1
unfolding update_story_current_stage call
update_story_current_stage-Quiet id s w = ground arith

pub set_writeback_status-Quiet :
    (id : Uuid) (s : String) (w : World) → Quiet w (set_writeback_status id s w).1
unfolding set_writeback_status call
set_writeback_status-Quiet id s w = ground arith

pub get_project-Quiet : (id : Uuid) (w : World) → Quiet w (get_project id w).1
unfolding get_project call
get_project-Quiet id w = ground arith

pub increment_circuit_breaker_count-Quiet :
    (id : Uuid) (w : World) → Quiet w (increment_circuit_breaker_count id w).1
unfolding increment_circuit_breaker_count call
increment_circuit_breaker_count-Quiet id w = ground arith

pub reset_circuit_breaker-Quiet : (id : Uuid) (w : World) → Quiet w (reset_circuit_breaker id w).1
unfolding reset_circuit_breaker call
reset_circuit_breaker-Quiet id w = ground arith
