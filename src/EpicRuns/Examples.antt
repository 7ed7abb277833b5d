-- ===== src/EpicRuns/Examples.antt =====
-- An epic run of the two stories, move by move.
use hopeitworks.Prelude.{◌≡◌, refl, none, List, [], ◌∷◌, Elem, inl, inr, ◌=s=◌, str_leb}
use hopeitworks.Errors.{Result, ok}
use hopeitworks.Action.{caught, logged}
use hopeitworks.Model.Config.{
  parse_pipeline_config_yaml, normalize_groups, normalize_group, normalize_steps, normalize_guards,
  wrap_legacy_steps, flat_steps, flat_steps_with_stage,
}
use hopeitworks.Model.Entities.{meta_set}
use hopeitworks.World.{
  World, execute_run as job_of, call, run_at, story_at, project_at, update_where,
}
use hopeitworks.Repo.Runs.{get_run, create_run, create_run_step, get_active_run_by_story}
use hopeitworks.Repo.Rows.{get_story, get_pipeline_config}
use hopeitworks.Repo.Outbox.{publish, enqueue}
use hopeitworks.Repo.Epics.{
  epic_at, epic_run_at, get_epic, list_by_epic, create_epic_run, insert_epic_run_story,
  update_epic_run_status, update_epic_run_story_status,
}
use hopeitworks.Scheduler.{
  build_dag, story_graph, add_file_conflict_edges, add_file_edges, add_chain, add_explicit_edges,
  add_depends_on, add_edge, has_edge, update, by_key, file_index, index_files, index_file,
  sort_strings, insert_sorted, dedup, dedup_from, kahn, take_layer, release,
}
use hopeitworks.RunService.Launch.{
  launch_run, launch_with, create_all, create_staged_steps, steps_metadata, step_metadata,
}
use hopeitworks.Executor.Execution.{execute_run}
use hopeitworks.EpicRuns.{Launch, insert_group, insert_groups, launch_epic_run}
use hopeitworks.EpicRuns.Groups.{
  spawned, launched, succeeded, waiting, finished, Move, main, routine, other, publish_event,
  publish_story_completed, after_launch, after_execution, run_story, start_epic, start_group,
  complete_epic, after_wait, advance, step_routine, step, run_moves, execute,
}
use hopeitworks.EpicRuns.Safety.{HasRun, waits_for_dependencies, runs_apart, completes_all}
use hopeitworks.EpicRuns.Twice.{launched_leaves_job}
use hopeitworks.EpicRuns.Launching.{IsLaunched, launch_epic_run-IsLaunched}
use hopeitworks.RunService.Samples.{services}
use hopeitworks.EpicRuns.Samples.{
  in_order, story_a, story_b, stories, dag, dag_test, stories-HasUniqueKeys, in_order-IsRangeOrder,
  a_counted, no_uuid, executor, epic_run, world, first, completed, go_on, done,
}

-- Until the second story's goroutine is there.
abbrev half : List Move
half =
    main
    ∷ main
    ∷ routine 0 go_on
    ∷ other (world (completed 10 2 ∷ []) (epic_run ∷ []) 12)
    ∷ routine 0 go_on
    ∷ main
    ∷ main
    ∷ []

-- From there to the end.
abbrev rest : List Move
rest =
    routine 0 go_on
    ∷ other (world (completed 12 3 ∷ completed 10 2 ∷ []) (epic_run ∷ []) 14)
    ∷ routine 0 go_on
    ∷ main
    ∷ main
    ∷ []

abbrev both : List Move
both =
    main
    ∷ main
    ∷ routine 0 go_on
    ∷ other (world (completed 10 2 ∷ []) (epic_run ∷ []) 12)
    ∷ routine 0 go_on
    ∷ main
    ∷ main
    ∷ rest

half_test :
    (run_moves services no_uuid executor epic_run half (execute dag first)).control
    ≡ waiting ((done story_a ∷ []) ∷ []) (record { story = story_b; phase = spawned } ∷ []) none []
unfolding run_moves step advance step_routine start_epic start_group after_wait run_story
    after_launch after_execution publish_event publish_story_completed caught logged publish call
    update_epic_run_status epic_run_at update_epic_run_story_status update_where project_at
    execute_run get_run run_at launch_run launch_with create_all create_staged_steps steps_metadata
    step_metadata get_story get_active_run_by_story get_pipeline_config create_run create_run_step
    enqueue story_at meta_set parse_pipeline_config_yaml normalize_groups normalize_group
    normalize_steps normalize_guards wrap_legacy_steps flat_steps flat_steps_with_stage ◌=s=◌
half_test = refl

both_test :
    (run_moves services no_uuid executor epic_run both (execute dag first)).control
    ≡ finished ((done story_a ∷ []) ∷ (done story_b ∷ []) ∷ []) succeeded
unfolding run_moves step advance step_routine start_epic start_group after_wait run_story
    after_launch after_execution publish_event publish_story_completed caught logged publish call
    update_epic_run_status epic_run_at update_epic_run_story_status update_where project_at
    execute_run get_run run_at launch_run launch_with create_all create_staged_steps steps_metadata
    step_metadata get_story get_active_run_by_story get_pipeline_config create_run create_run_step
    enqueue story_at meta_set parse_pipeline_config_yaml normalize_groups normalize_group
    normalize_steps normalize_guards wrap_legacy_steps flat_steps flat_steps_with_stage ◌=s=◌
    complete_epic
both_test = refl

waits_for_dependencies_example :
    HasRun services no_uuid executor epic_run dag half first ((done story_a ∷ []) ∷ []) "A"
waits_for_dependencies_example =
    waits_for_dependencies services no_uuid executor epic_run in_order stories dag half first
      stories-HasUniqueKeys dag_test ((done story_a ∷ []) ∷ [])
      (record { story = story_b; phase = spawned } ∷ []) none [] half_test
      (record { story = story_b; phase = spawned }) "A" (inl refl) (inl refl) a_counted

runs_apart_example : story_b.key ≡ story_b.key
runs_apart_example =
    runs_apart services no_uuid executor epic_run in_order stories dag half first
      stories-HasUniqueKeys in_order-IsRangeOrder dag_test ((done story_a ∷ []) ∷ [])
      (record { story = story_b; phase = spawned } ∷ []) none [] half_test
      (record { story = story_b; phase = spawned }) (record { story = story_b; phase = spawned })
      "g" (inl refl) (inl refl) (inl refl) (inl refl)

completes_all_example :
    HasRun services no_uuid executor epic_run dag both first
      ((done story_a ∷ []) ∷ (done story_b ∷ []) ∷ [])
      "B"
completes_all_example =
    completes_all services no_uuid executor epic_run in_order stories dag both first
      stories-HasUniqueKeys dag_test ((done story_a ∷ []) ∷ (done story_b ∷ []) ∷ []) both_test
      story_b (inr (inl refl))

abbrev after_spawn : World
after_spawn = (run_story services no_uuid executor epic_run go_on story_a spawned first).1

spawned_test :
    run_story services no_uuid executor epic_run go_on story_a spawned first
    ≡ (ok (launched 10), after_spawn)
unfolding run_story after_launch caught logged call update_epic_run_story_status update_where
    project_at launch_run launch_with create_all create_staged_steps steps_metadata step_metadata
    get_story get_active_run_by_story get_pipeline_config create_run create_run_step enqueue
    story_at run_at meta_set parse_pipeline_config_yaml normalize_groups normalize_group
    normalize_steps normalize_guards wrap_legacy_steps flat_steps flat_steps_with_stage ◌=s=◌
spawned_test = refl

launched_leaves_job_example : Elem (job_of 10) after_spawn.queue
launched_leaves_job_example =
    launched_leaves_job services no_uuid executor epic_run story_a go_on first after_spawn 10
      spawned_test

abbrev empty : World
empty = world [] [] 20

abbrev launch_of : Result Launch → Launch
launch_of (ok l) = l
launch_of _ = record { epic_run = epic_run; stories = []; dag = [] }

abbrev launch : Launch
launch = launch_of (launch_epic_run in_order 1 7 empty).0

abbrev after_launching : World
after_launching = (launch_epic_run in_order 1 7 empty).1

launch_test : launch_epic_run in_order 1 7 empty ≡ (ok launch, after_launching)
unfolding launch_epic_run insert_groups insert_group get_epic list_by_epic create_epic_run
    insert_epic_run_story epic_at epic_run_at project_at story_at call build_dag story_graph
    add_file_conflict_edges add_file_edges add_chain add_explicit_edges add_depends_on add_edge
    has_edge update by_key file_index index_files index_file sort_strings insert_sorted dedup
    dedup_from kahn take_layer release ◌=s=◌ str_leb
launch_test = refl

launch_epic_run-IsLaunched_example : IsLaunched in_order 1 7 empty launch after_launching
launch_epic_run-IsLaunched_example =
    launch_epic_run-IsLaunched in_order 1 7 empty after_launching launch launch_test
