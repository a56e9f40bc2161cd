-- ===== src/Batch/Repository.antt =====
-- src/integration/batch/batch.repository.ts
use readyon.Base.{
  ℕ, Bool, true, false, ◌&&◌, ◌||◌, Option, none, some, List, [], ◌∷◌, ◌++◌, ltb, leb, ◌==◌, ⊤,
  if◌then◌else◌, find_first, any, update_where, select_where,
}
use readyon.Types.{
  Text, IntegrationBatchRow, BatchStatus, batch_processing, batch_completed, batch_partial,
  batch_failed,
}
use readyon.Errors.{sqlite_error, type_error, integration_batches}
use readyon.Store.{Db, M, gets, ask, or_raise, raise_if, modify, generate_id, now_iso, ◌>>=◌, ◌>>◌}

-- 'HCM', the default of the column `source`.
abbrev pub hcm_source : Text
hcm_source = 2

unfoldable pub find_by_id : Text → Db → Option IntegrationBatchRow
find_by_id id db = find_first (λ b. b.id == id) db.batches

unfoldable pub find_by_batch_id : Text → Db → Option IntegrationBatchRow
find_by_batch_id batch_id db = find_first (λ b. b.batch_id == batch_id) db.batches

-- The keys of integration_batches.
unfoldable pub violates : IntegrationBatchRow → Db → Bool
violates b db =
    any (λ (c : IntegrationBatchRow). c.id == b.id || c.batch_id == b.batch_id) db.batches

-- The row that `create` inserts.
abbrev pub new_batch : Text → ℕ → Text → Text → IntegrationBatchRow
new_batch batch_id total_items id now = record {
  id = id;
  batch_id = batch_id;
  source = hcm_source;
  status = batch_processing;
  total_items = total_items;
  processed_items = 0;
  skipped_items = 0;
  failed_items = 0;
  error_summary = none;
  started_at = now;
  completed_at = none;
  created_at = now;
  updated_at = now;
}

unfoldable pub create : Text → ℕ → M IntegrationBatchRow
unfolding generate_id
create batch_id total_items = do
  id ← generate_id
  now ← ask now_iso
  let b = new_batch batch_id total_items id now
  raise_if (← gets (violates b)) (sqlite_error integration_batches)
  modify (λ db. record db { batches = db.batches ++ b ∷ [] })
  or_raise (← gets (find_by_id id)) type_error

-- `failed > 0 && processed === 0 ? FAILED : failed > 0 ? PARTIAL : COMPLETED`
unfoldable pub final_status : ℕ → ℕ → BatchStatus
final_status processed failed =
    if ltb 0 failed && processed == 0
    then batch_failed
    else if ltb 0 failed
    then batch_partial
    else batch_completed

abbrev pub or_no_errors : List (Text × Text × Text) → Option (List (Text × Text × Text))
or_no_errors [] = none
or_no_errors errors = some errors

abbrev pub set_counts :
    ℕ → ℕ → ℕ → List (Text × Text × Text) → Text → IntegrationBatchRow → IntegrationBatchRow
set_counts processed skipped failed errors now b = record b {
  status = final_status processed failed;
  processed_items = processed;
  skipped_items = skipped;
  failed_items = failed;
  error_summary = or_no_errors errors;
  completed_at = some now;
  updated_at = now;
}

unfoldable pub update_counts : Text → ℕ → ℕ → ℕ → List (Text × Text × Text) → M ⊤
update_counts id processed skipped failed errors w =
    modify
      (λ db. record db {
        batches =
            update_where (λ b. b.id == id) (set_counts processed skipped failed errors (now_iso w))
              db.batches;
      })
      w

-- `status IN ('COMPLETED', 'PARTIAL')`
abbrev pub is_synced : BatchStatus → Bool
is_synced batch_completed = true
is_synced batch_partial = true
is_synced _ = false

-- `MAX(completed_at)`, which leaves NULL out.
abbrev pub later_of : Option Text → Option Text → Option Text
later_of none b = b
later_of (some a) none = some a
later_of (some a) (some b) = if leb a b then some b else some a

last_of : List IntegrationBatchRow → Option Text
last_of [] = none
last_of (b ∷ bs) = later_of b.completed_at (last_of bs)

unfoldable pub get_last_batch_time : Db → Option Text
unfolding last_of
get_last_batch_time db = last_of (select_where (λ b. is_synced b.status) db.batches)
