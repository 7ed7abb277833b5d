-- ===== src/Executor/Restarting.antt =====
-- The rows that `StartStage` (service/run_service.go) reads and writes.
use hopeitworks.Prelude.{
  ◌≡◌, refl, sym, ap, ◌∙◌, true, false, Option, none, some, List, [], ◌∷◌, find, select, ◌=s=◌,
  =s=-refl, String, Bool-cases, inl, inr, ◌==◌, ◌&&◌, arith,
}
use hopeitworks.Errors.{ok}
use hopeitworks.Model.Status.{RunStatus}
use hopeitworks.Model.Entities.{
  Uuid, Run, Metadata, MetaKey, MetaValue, named, stage_started, meta_key_eq, meta_get, meta_set,
  meta_delete, as_string,
}
use hopeitworks.World.{World, call, run_at, run_has_id, update_where}
use hopeitworks.World.Moves.{run_at-id, find-update_where}
use hopeitworks.Repo.Runs.{
  get_active_run_by_story, is_active, newest, update_run_metadata, update_run_status, with_status,
}
use hopeitworks.RunService.{started_metadata, or_no_active_run}
use hopeitworks.Executor.Halting.{found_after}

get-set :
    (k : MetaKey) (v : MetaValue) (m : Metadata)
    → meta_key_eq k k ≡ true
    → meta_get k (meta_set k v m) ≡ some v
unfolding meta_get meta_set
get-set k v [] same = ground (arith, same)
get-set k v ((j, u) ∷ m) same = ground (arith, same, get-set k v m same)

get-delete :
    (id name : String) (m : Metadata)
    → meta_get (stage_started id) (meta_delete (named name) m) ≡ meta_get (stage_started id) m
unfolding meta_get meta_delete
get-delete id name [] = refl
get-delete id name ((named a, u) ∷ m) = ground (arith, get-delete id name m)
get-delete id name ((MetaKey.of_step n a, u) ∷ m) = ground (arith, get-delete id name m)
get-delete id name ((stage_started a, u) ∷ m) = ground (arith, get-delete id name m)

-- The parked stage is marked.
pub marked :
    (id : String) (m : Metadata)
    → as_string (meta_get (named "paused_stage_id") m) ≡ id
    → (id =s= "") ≡ false
    → meta_get (stage_started id) (started_metadata m) ≡ some (MetaValue.bool true)
unfolding started_metadata
marked id m parked set =
    get-delete id "paused_stage_name" _
    ∙ get-delete id "paused_stage_id" _
    ∙ get-delete id "paused_reason" _
    ∙ rw (parked, set) (get-set (stage_started id) (MetaValue.bool true) m (=s=-refl id))

pub active_found :
    (s : Uuid) (w v : World) (a : Option Run)
    → get_active_run_by_story s w ≡ (ok a, v)
    → a ≡ newest (select (λ (r : Run). r.story_id == s && is_active r.status) w.runs)
unfolding get_active_run_by_story call
active_found s w v a h = ground arith

pub active_some :
    (a : Option Run) (r : Run) (w v : World)
    → or_no_active_run a w ≡ (ok r, v)
    → (a ≡ some r) × (w ≡ v)
active_some none r w v h = absurd (ground arith)
active_some (some q) r w v h = (ground arith, ground arith)

rewritten :
    (id : Uuid) (m : Metadata) (rs : List Run) (x : Run)
    → find
        (run_has_id id)
        (update_where (run_has_id id) (λ (r : Run). record r { metadata = m }) rs)
      ≡ some x
    → x.metadata ≡ m
unfolding update_where
rewritten id m [] x h = absurd (ground arith)
rewritten id m (q ∷ rs) x h = elim (Bool-cases (q.id == id)) [
  | inl e ↦ ground arith
  | inr e ↦ rewritten id m rs x (ground arith)
]

metadata_written :
    (id : Uuid) (m : Metadata) (w v : World)
    → update_run_metadata id m w ≡ (ok tt, v)
    → v.runs ≡ update_where (run_has_id id) (λ (r : Run). record r { metadata = m }) w.runs
unfolding update_run_metadata call
metadata_written id m w v h = ground arith

-- The stored row before an update of its status, and what is returned and stored after it.
status_written :
    (id : Uuid) (w v : World) (r : Run)
    → update_run_status id RunStatus.running none none none none w ≡ (ok r, v)
    → (q : Run) × (run_at w id ≡ some q)
      × (r.metadata ≡ q.metadata)
      × (r.status ≡ RunStatus.running)
      × (run_at v r.id ≡ some r)
unfolding run_at
status_written id w v r h =
    let set = with_status RunStatus.running none none none none in
    let (q, found, same, rows) =
      found_after id RunStatus.running none none none none w r (ap (λ o. o.0) h) in
    let named_ : r.id ≡ id = ap (λ (z : Run). z.id) same ∙ run_at-id w id q found in
    let stored : find (run_has_id id) v.runs ≡ some (set q) =
      ap (λ o. find (run_has_id id) o.1.runs) (sym h)
      ∙ ap (find (run_has_id id)) rows
      ∙ find-update_where id id set (λ _. refl) w.runs q found
      ∙ ground arith in
    (
      q,
      found,
      ap (λ (z : Run). z.metadata) same,
      ap (λ (z : Run). z.status) same,
      ap (λ i. find (run_has_id i) v.runs) named_ ∙ stored ∙ ap some (sym same),
    )

-- The last calls of `StartStage`.
pub resumed :
    (x r : Run) (m : Metadata) (w u v : World)
    → update_run_metadata x.id m w ≡ (ok tt, u)
    → update_run_status x.id RunStatus.running none none none none u ≡ (ok r, v)
    → (r.status ≡ RunStatus.running) × (r.metadata ≡ m) × (run_at v r.id ≡ some r)
unfolding run_at
resumed x r m w u v written set =
    let (q, found, meta, status, stored) = status_written x.id u v r set in
    (
      status,
      meta
          ∙ rewritten x.id m w.runs q
              (ap (find (run_has_id x.id)) (sym (metadata_written x.id m w u written)) ∙ found),
      stored,
    )
