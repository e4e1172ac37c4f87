-- ===== src/Orchestration/StatusStore.antt =====
-- libs/orchestration/status_store.py: the table dataset_status (libs/db/models/quant.py) and the
-- operations of `StatusStore`. A store is the table and the tenants of the resources; an operation
-- that raises returns no store. Times and dates are numbers, and the clock's readings arguments.
pub mod Effects
pub mod Tests
use optaic_trading.Prelude.{
  ℕ, ◌≡◌, Bool, true, false, Option, none, some, List, [], ◌∷◌, String, Result, ok, err, ◌>>=◌,
}
use optaic_trading.Prelude.Dict.{Dict, get, put}

-- A row of `DatasetStatus`; its key is the dataset's identifier.
pub record StatusRow : Type 0 where
  pub tenant_id : ℕ
  pub last_pipeline_run : Option ℕ
  pub last_pipeline_status : Option String
  pub last_data_date : Option ℕ
  pub last_source_check : Option ℕ
  pub source_delay_detected : Bool
  pub error_message : Option String
  pub rows_processed : Option ℕ
  pub updated_at : Option ℕ

pub record Store : Type 0 where
  pub statuses : Dict StatusRow
  pub tenants : Dict ℕ

pub data StoreError : Type 0 where
  resource_not_found : StoreError

-- `DatasetStatusRecord` holds the row's columns, less the tenant.
unfoldable pub get_status : ℕ → Store → Option StatusRow
get_status dataset_id store = get dataset_id store.statuses

-- `DatasetStatus(dataset_id=…, tenant_id=…)`
abbrev pub blank_status : ℕ → StatusRow
blank_status tenant_id = record {
  tenant_id = tenant_id;
  last_pipeline_run = none;
  last_pipeline_status = none;
  last_data_date = none;
  last_source_check = none;
  source_delay_detected = false;
  error_message = none;
  rows_processed = none;
  updated_at = none;
}

pub get_or_create : ℕ → Store → Result StoreError StatusRow
get_or_create dataset_id store = elim (get dataset_id store.statuses) [
  | some row ↦ ok row
  | none ↦ elim (get dataset_id store.tenants) [
    | none ↦ err resource_not_found
    | some tenant_id ↦ ok (blank_status tenant_id)
  ]
]

-- The row is a tracked object: what is assigned to it stands in the table after the flush.
pub update_status : ℕ → (StatusRow → StatusRow) → Store → Result StoreError Store
unfolding get_or_create
update_status dataset_id change store = get_or_create dataset_id store >>= λ row.
    ok (record store { statuses = put dataset_id (change row) store.statuses })

abbrev pub started : ℕ → ℕ → StatusRow → StatusRow
started run_time now row = record row {
  last_pipeline_run = some run_time;
  last_pipeline_status = some "running";
  error_message = none;
  updated_at = some now;
}

pub mark_run_start : ℕ → ℕ → ℕ → Store → Result StoreError Store
mark_run_start run_time now dataset_id = update_status dataset_id (started run_time now)

abbrev pub succeeded : Option ℕ → Option ℕ → Bool → ℕ → StatusRow → StatusRow
succeeded last_data_date rows_processed source_delay_detected now row = record row {
  last_pipeline_status = some "success";
  last_data_date = last_data_date;
  rows_processed = rows_processed;
  source_delay_detected = source_delay_detected;
  error_message = none;
  updated_at = some now;
}

pub mark_run_success : Option ℕ → Option ℕ → Bool → ℕ → ℕ → Store → Result StoreError Store
mark_run_success last_data_date rows_processed source_delay_detected now dataset_id =
    update_status dataset_id (succeeded last_data_date rows_processed source_delay_detected now)

abbrev pub failed : String → ℕ → StatusRow → StatusRow
failed error_message now row = record row {
  last_pipeline_status = some "error";
  error_message = some error_message;
  updated_at = some now;
}

pub mark_run_error : String → ℕ → ℕ → Store → Result StoreError Store
mark_run_error error_message now dataset_id = update_status dataset_id (failed error_message now)

abbrev pub emptied : ℕ → StatusRow → StatusRow
emptied now row = record row {
  last_pipeline_status = some "empty";
  error_message = none;
  updated_at = some now;
}

pub mark_run_empty : ℕ → ℕ → Store → Result StoreError Store
mark_run_empty now dataset_id = update_status dataset_id (emptied now)

abbrev pub source_checked : Bool → ℕ → ℕ → StatusRow → StatusRow
source_checked delay_detected check_time now row = record row {
  last_source_check = some check_time;
  source_delay_detected = delay_detected;
  updated_at = some now;
}

pub mark_source_check : Bool → ℕ → ℕ → ℕ → Store → Result StoreError Store
mark_source_check delay_detected check_time now dataset_id =
    update_status dataset_id (source_checked delay_detected check_time now)
