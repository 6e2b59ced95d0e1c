-- ===== src/Trace/Storage.antt =====
-- packages/replayor/trace.go, `recordStorageChanges`: the accounts and storage slots of a block that
-- its transactions changed, from their prestate traces in diff mode. The order in which Go goes
-- through a map is that of the association list, which stands for any of its orders.
use replayor.Prelude.{
  ℕ, Option, none, some, String, Bool, true, List, [], ◌∷◌, ltb, if◌then◌else◌, length, add64,
  u64_mod, ◌%◌, Dict, lookup, insert, or_zero,
}
use replayor.Exec.{Result, ok, err}
use replayor.Stats.{BlockCreationStats}

pub record StorageAccountState : Type 0 where
  pub balance : String
  pub nonce : ℕ
  pub storage : Dict String

abbrev pub Accounts : Type 0
Accounts = Dict StorageAccountState

pub record StorageTrace : Type 0 where
  pub tx_hash : String
  pub pre : Accounts
  pub post : Accounts

-- `StorageAccountState{Storage: make(map[string]string)}`, which reads like the zero value.
abbrev pub empty_state : StorageAccountState
empty_state = record { balance = ""; nonce = 0; storage = [] }

-- `for slot, value := range storage.Storage { ...Storage[slot] = value }`
unfoldable pub merge_slots : Dict String → Dict String → Dict String
merge_slots [] merged = merged
merge_slots ((slot, value) ∷ slots) merged = merge_slots slots (insert slot value merged)

-- The loop over `Pre`, and over `Post`, of one trace.
unfoldable pub merge_accounts : Accounts → Accounts → Accounts
merge_accounts [] merged = merged
merge_accounts ((account, state) ∷ accounts) merged =
    let old = or_zero (lookup account merged) empty_state in
    merge_accounts accounts
      (insert account (record old { storage = merge_slots state.storage old.storage }) merged)

-- The loop over the traces: the merged `Pre` and `Post`.
unfoldable pub merge_traces : List StorageTrace → Accounts × Accounts → Accounts × Accounts
merge_traces [] merged = merged
merge_traces (trace ∷ traces) (pre, post) =
    merge_traces traces (merge_accounts trace.pre pre, merge_accounts trace.post post)

-- `s.SlotsChanged` and `changedStorageTries`.
pub record Changes : Type 0 where
  pub slots_changed : ℕ
  pub changed_storage_tries : Dict Bool

-- `mergedTrace.Result.Post[address].Storage[slot]`: of an address that is missing, a nil map.
unfoldable pub slot_in : Accounts → String → String → Option String
slot_in accounts address slot = lookup slot (or_zero (lookup address accounts) empty_state).storage

unfoldable pub count_deleted : Option String → String → Changes → Changes
count_deleted (some value) address c = c
count_deleted none address c = record {
  slots_changed = add64 c.slots_changed 1;
  changed_storage_tries = insert address true c.changed_storage_tries;
}

-- The loops over `Pre`: the slots that are gone.
unfoldable pub deleted_slots : Accounts → String → Dict String → Changes → Changes
unfolding count_deleted
deleted_slots post address [] c = c
deleted_slots post address ((slot, value) ∷ slots) c =
    deleted_slots post address slots (count_deleted (slot_in post address slot) address c)

unfoldable pub deleted_accounts : Accounts → Accounts → Changes → Changes
deleted_accounts post [] c = c
deleted_accounts post ((address, state) ∷ accounts) c =
    deleted_accounts post accounts (deleted_slots post address state.storage c)

-- The loop over `Post`: the slots that are new or changed.
unfoldable pub written_accounts : Accounts → Changes → Changes
written_accounts [] c = c
written_accounts ((address, state) ∷ accounts) c = written_accounts accounts (record {
  slots_changed = add64 c.slots_changed (length state.storage % u64_mod);
  changed_storage_tries =
      if ltb 0 (length state.storage)
      then insert address true c.changed_storage_tries
      else c.changed_storage_tries;
})

unfoldable pub changes : Accounts → Accounts → Changes
changes pre post =
    written_accounts post
      (deleted_accounts post pre (record { slots_changed = 0; changed_storage_tries = [] }))

-- What `debug_traceBlockByHash` answers for a block hash to the attempt of an index, and
-- `retry.Do` at the type of its answer.
pub record StorageTracer : Type 0 where
  pub trace_block : ℕ → ℕ → Result (List StorageTrace)
  pub retry_traces : ℕ → (ℕ → Result (List StorageTrace)) → Result (List StorageTrace)

unfoldable pub traces_loaded : Result (List StorageTrace) → BlockCreationStats → BlockCreationStats
traces_loaded (err e) s = s
traces_loaded (ok storage_traces) s =
    let merged = merge_traces storage_traces ([], []) in
    let changed = changes merged.0 merged.1 in
    record s {
      accounts_changed = length merged.1 % u64_mod;
      slots_changed = changed.slots_changed;
      storage_tries_changed = length changed.changed_storage_tries % u64_mod;
    }

unfoldable pub record_storage_changes : StorageTracer → BlockCreationStats → BlockCreationStats
record_storage_changes tracer s =
    traces_loaded (tracer.retry_traces 3 (tracer.trace_block s.block_hash)) s
