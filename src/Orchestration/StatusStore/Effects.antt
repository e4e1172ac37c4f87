-- ===== src/Orchestration/StatusStore/Effects.antt =====
-- What the operations of the status store change, and what they leave.
use optaic_trading.Prelude.{
  ℕ, ◌≡◌, Bool, false, Option, none, some, String, ok, err, ◌>>=◌, nat_beq, arith, ◌∙◌,
}
use optaic_trading.Prelude.Dict.{get, put, get-put}
use optaic_trading.Orchestration.StatusStore.{
  StatusRow, Store, resource_not_found, get_status, blank_status, update_status, started, succeeded,
  failed, mark_run_start, mark_run_success, mark_run_error,
}

-- The row that an operation starts from: the stored one, or a blank one for a known resource.
unfoldable pub current : ℕ → Store → Option StatusRow
current dataset_id store = elim (get dataset_id store.statuses) [
  | some row ↦ some row
  | none ↦ elim (get dataset_id store.tenants) [
    | none ↦ none
    | some tenant_id ↦ some (blank_status tenant_id)
  ]
]

pub update_status-some :
    (id : ℕ) (change : StatusRow → StatusRow) (store : Store) (row : StatusRow)
    → current id store ≡ some row
    → update_status id change store
      ≡ ok (record store { statuses = put id (change row) store.statuses })
unfolding update_status current
update_status-some id change store row h = ground arith

pub update_status-none :
    (id : ℕ) (change : StatusRow → StatusRow) (store : Store)
    → current id store ≡ none
    → update_status id change store ≡ err resource_not_found
unfolding update_status current
update_status-none id change store h = ground arith

pub mark_run_success-some :
    (id now : ℕ) (last_data_date rows_processed : Option ℕ) (delay : Bool) (store : Store)
    (row : StatusRow)
    → current id store ≡ some row
    → mark_run_success last_data_date rows_processed delay now id store
      ≡ ok (record store {
        statuses = put id (succeeded last_data_date rows_processed delay now row) store.statuses;
      })
unfolding mark_run_success
mark_run_success-some id now last_data_date rows_processed delay store row known =
    update_status-some id (succeeded last_data_date rows_processed delay now) store row known

-- Each dataset but `id` keeps its row.
abbrev pub KeepsOthers : ℕ → Store → Store → Type 0
KeepsOthers id before after =
    (j : ℕ) → nat_beq j id ≡ false → get_status j after ≡ get_status j before

put-KeepsOthers :
    (id : ℕ) (row : StatusRow) (store : Store)
    → KeepsOthers id store (record store { statuses = put id row store.statuses })
unfolding get_status
put-KeepsOthers id row store j other =
    ground (arith, get-put {V = StatusRow} j id row store.statuses)

pub put_self :
    (id : ℕ) (row : StatusRow) (store : Store)
    → get_status id (record store { statuses = put id row store.statuses }) ≡ some row
unfolding get_status
put_self id row store = ground (arith, get-put {V = StatusRow} id id row store.statuses)

current-put :
    (id : ℕ) (row : StatusRow) (store : Store)
    → current id (record store { statuses = put id row store.statuses }) ≡ some row
unfolding current
current-put id row store = ground (arith, get-put {V = StatusRow} id id row store.statuses)

update_twice :
    (id : ℕ) (f g : StatusRow → StatusRow) (store : Store) (row : StatusRow)
    → current id store ≡ some row
    → (after : Store) × ((update_status id f store >>= update_status id g) ≡ ok after)
      × (get_status id after ≡ some (g (f row)))
      × KeepsOthers id store after
update_twice id f g store row known =
    let middle = record store { statuses = put id (f row) store.statuses } in
    let after = record middle { statuses = put id (g (f row)) middle.statuses } in
    (
      after,
      rw (update_status-some id f store row known)
          (update_status-some id g middle (f row) (current-put id (f row) store)),
      put_self id (g (f row)) middle,
      λ j other.
          put-KeepsOthers id (g (f row)) middle j other ∙ put-KeepsOthers id (f row) store j other,
    )

-- A run of a known dataset that starts and succeeds leaves a row with the success, the data date
-- and row count of the run, the start time of the run and no error, and all other rows alone.
pub start_success :
    (id run_time t1 t2 : ℕ) (last_data_date rows_processed : Option ℕ) (delay : Bool)
    (store : Store) (row : StatusRow)
    → current id store ≡ some row
    → (after : Store) × ((mark_run_start run_time t1 id store
          >>= mark_run_success last_data_date rows_processed delay t2 id)
        ≡ ok after)
      × (get_status id after
          ≡ some (record row {
            last_pipeline_run = some run_time;
            last_pipeline_status = some "success";
            last_data_date = last_data_date;
            rows_processed = rows_processed;
            source_delay_detected = delay;
            error_message = none;
            updated_at = some t2;
          }))
      × KeepsOthers id store after
unfolding mark_run_start mark_run_success
start_success id run_time t1 t2 last_data_date rows_processed delay store row known =
    update_twice id (started run_time t1) (succeeded last_data_date rows_processed delay t2) store
      row known

-- A run of a known dataset that starts and fails leaves a row with the error and its message and
-- the start time of the run; the data date, the row count, the delay flag and all other rows stay.
pub start_error :
    (id run_time t1 t2 : ℕ) (message : String) (store : Store) (row : StatusRow)
    → current id store ≡ some row
    → (after : Store) × ((mark_run_start run_time t1 id store >>= mark_run_error message t2 id)
        ≡ ok after)
      × (get_status id after
          ≡ some (record row {
            last_pipeline_run = some run_time;
            last_pipeline_status = some "error";
            error_message = some message;
            updated_at = some t2;
          }))
      × KeepsOthers id store after
unfolding mark_run_start mark_run_error
start_error id run_time t1 t2 message store row known =
    update_twice id (started run_time t1) (failed message t2) store row known
