-- ===== src/Trace/Changed.antt =====
-- How many slots `recordStorageChanges` of packages/replayor/trace.go counts.
use replayor.Prelude.{
  ◌+◌, ◌%◌, ◌≡◌, refl, ap, String, Bool, true, false, ◌||◌, ◌&&◌, not, List, [], ◌∷◌, ◌++◌, ◌<◌,
  suc, arith, str_eq, eq_iff, Dict, length, length-append, u64_mod, if◌then◌else◌, ltb, add64,
  insert,
}
use replayor.Trace.Storage.{
  StorageAccountState, Accounts, StorageTrace, Changes, merge_traces, slot_in, count_deleted,
  deleted_slots, deleted_accounts, written_accounts, changes, StorageTracer, traces_loaded,
  record_storage_changes,
}
use replayor.Exec.{ok}
use replayor.Stats.{BlockCreationStats}
use replayor.Trace.Slots.{
  has, IsDict, is_some, named, touched, AreDicts, named-merge_traces, merge_traces-AreDicts,
  slot_in-named, has-named,
}

abbrev pub Slot : Type 0
Slot = String × String

abbrev pub same_slot : Slot → Slot → Bool
same_slot p q = str_eq p.0 q.0 && str_eq p.1 q.1

abbrev pub mem : Slot → List Slot → Bool
mem p [] = false
mem p (q ∷ qs) = same_slot q p || mem p qs

-- No slot twice.
abbrev pub IsDistinct : List Slot → Type 0
IsDistinct [] = Unit
IsDistinct (p ∷ ps) = (mem p ps ≡ false) × IsDistinct ps

-- The slots of an account, and of accounts, that pass a test.
abbrev slots_of : (Slot → Bool) → String → Dict String → List Slot
slots_of keep a [] = []
slots_of keep a ((k, v) ∷ slots) =
    let rest = slots_of keep a slots in if keep (a, k) then (a, k) ∷ rest else rest

abbrev slots_in : (Slot → Bool) → Accounts → List Slot
slots_in keep [] = []
slots_in keep ((a, state) ∷ accounts) = slots_of keep a state.storage ++ slots_in keep accounts

mem-append : (p : Slot) (ps qs : List Slot) → mem p (ps ++ qs) ≡ (mem p ps || mem p qs)
mem-append p [] qs = refl
mem-append p (q ∷ ps) qs = ground (arith, mem-append p ps qs)

mem-slots_of :
    (keep : Slot → Bool) (a b k : String) (slots : Dict String)
    → mem (b, k) (slots_of keep a slots) ≡ (str_eq a b && has k slots && keep (b, k))
mem-slots_of keep a b k [] = ground arith
mem-slots_of keep a b k ((j, v) ∷ slots) =
    ground (arith, mem-slots_of keep a b k slots, eq_iff a b, eq_iff j k)

mem-slots_in :
    (keep : Slot → Bool) (b k : String) (accounts : Accounts)
    → mem (b, k) (slots_in keep accounts) ≡ (named b k accounts && keep (b, k))
mem-slots_in keep b k [] = refl
mem-slots_in keep b k ((a, state) ∷ accounts) = ground (
  arith,
  mem-append (b, k) (slots_of keep a state.storage) (slots_in keep accounts),
  mem-slots_of keep a b k state.storage,
  mem-slots_in keep b k accounts,
)

IsDistinct-append :
    (ps qs : List Slot)
    → IsDistinct ps
    → IsDistinct qs
    → ((p : Slot) → mem p ps ≡ true → mem p qs ≡ false)
    → IsDistinct (ps ++ qs)
IsDistinct-append [] qs h k apart = k
IsDistinct-append ((a, k) ∷ ps) qs h d apart = (
  ground (arith, mem-append (a, k) ps qs, h.0, apart (a, k), eq_iff a a, eq_iff k k),
  IsDistinct-append ps qs h.1 d (λ p m. ground (arith, apart p)),
)

slots_of-IsDistinct :
    (keep : Slot → Bool) (a : String) (slots : Dict String)
    → IsDict slots
    → IsDistinct (slots_of keep a slots)
slots_of-IsDistinct keep a [] h = tt
slots_of-IsDistinct keep a ((k, v) ∷ slots) h =
    ground (arith, slots_of-IsDistinct keep a slots h.1, mem-slots_of keep a a k slots, h.0)

slots_in-IsDistinct :
    (keep : Slot → Bool) (accounts : Accounts)
    → AreDicts accounts
    → IsDistinct (slots_in keep accounts)
slots_in-IsDistinct keep [] h = tt
slots_in-IsDistinct keep ((a, state) ∷ accounts) h =
    IsDistinct-append (slots_of keep a state.storage) (slots_in keep accounts)
      (slots_of-IsDistinct keep a state.storage h.1.0)
      (slots_in-IsDistinct keep accounts (h.0.1, h.1.1))
      λ p m. ground (
        arith,
        mem-slots_of keep a p.0 p.1 state.storage,
        mem-slots_in keep p.0 p.1 accounts,
        has-named p.0 p.1 accounts,
        eq_iff a p.0,
        h.0.0,
      )

-- Whether a slot is not in the merged `Post`, as the code looks it up.
abbrev gone : Accounts → Slot → Bool
gone post p = not (is_some (slot_in post p.0 p.1))

abbrev any : Slot → Bool
any p = true

slots_changed-deleted_slots :
    (post : Accounts) (a : String) (slots : Dict String) (c : Changes)
    → (deleted_slots post a slots c).slots_changed % u64_mod
      ≡ (c.slots_changed + length (slots_of (gone post) a slots)) % u64_mod
unfolding deleted_slots count_deleted
slots_changed-deleted_slots post a [] c = omega arith
slots_changed-deleted_slots post a ((k, v) ∷ slots) c =
    ground (arith, slots_changed-deleted_slots post a slots (count_deleted (slot_in post a k) a c))

slots_changed-deleted_accounts :
    (post accounts : Accounts) (c : Changes)
    → (deleted_accounts post accounts c).slots_changed % u64_mod
      ≡ (c.slots_changed + length (slots_in (gone post) accounts)) % u64_mod
unfolding deleted_accounts
slots_changed-deleted_accounts post [] c = omega arith
slots_changed-deleted_accounts post ((a, state) ∷ accounts) c = omega (
  arith,
  slots_changed-deleted_accounts post accounts (deleted_slots post a state.storage c),
  slots_changed-deleted_slots post a state.storage c,
  length-append (slots_of (gone post) a state.storage) (slots_in (gone post) accounts),
)

length-slots_of-any :
    (a : String) (slots : Dict String) → length (slots_of any a slots) ≡ length slots
length-slots_of-any a [] = refl
length-slots_of-any a ((k, v) ∷ slots) = ap suc (length-slots_of-any a slots)

-- One turn of the loop over `Post`.
abbrev written : String → StorageAccountState → Changes → Changes
written a state c = record {
  slots_changed = add64 c.slots_changed (length state.storage % u64_mod);
  changed_storage_tries =
      if ltb 0 (length state.storage)
      then insert a true c.changed_storage_tries
      else c.changed_storage_tries;
}

slots_changed-written_accounts :
    (accounts : Accounts) (c : Changes)
    → (written_accounts accounts c).slots_changed % u64_mod
      ≡ (c.slots_changed + length (slots_in any accounts)) % u64_mod
unfolding written_accounts
slots_changed-written_accounts [] c = omega arith
slots_changed-written_accounts ((a, state) ∷ accounts) c = omega (
  arith,
  slots_changed-written_accounts accounts (written a state c),
  length-slots_of-any a state.storage,
  length-append (slots_of any a state.storage) (slots_in any accounts),
)

-- The counter is a `uint64` throughout.
abbrev IsSmall : Changes → Type 0
IsSmall c = c.slots_changed < u64_mod

deleted_slots-IsSmall :
    (post : Accounts) (a : String) (slots : Dict String) (c : Changes)
    → IsSmall c
    → IsSmall (deleted_slots post a slots c)
unfolding deleted_slots count_deleted
deleted_slots-IsSmall post a [] c h = h
deleted_slots-IsSmall post a ((k, v) ∷ slots) c h =
    deleted_slots-IsSmall post a slots (count_deleted (slot_in post a k) a c) (ground arith)

deleted_accounts-IsSmall :
    (post accounts : Accounts) (c : Changes)
    → IsSmall c
    → IsSmall (deleted_accounts post accounts c)
unfolding deleted_accounts
deleted_accounts-IsSmall post [] c h = h
deleted_accounts-IsSmall post ((a, state) ∷ accounts) c h =
    deleted_accounts-IsSmall post accounts (deleted_slots post a state.storage c)
      (deleted_slots-IsSmall post a state.storage c h)

written_accounts-IsSmall :
    (accounts : Accounts) (c : Changes) → IsSmall c → IsSmall (written_accounts accounts c)
unfolding written_accounts
written_accounts-IsSmall [] c h = h
written_accounts-IsSmall ((a, state) ∷ accounts) c h =
    written_accounts-IsSmall accounts (written a state c) (omega arith)

-- The slots that the counters of merged traces are about.
abbrev pub changed_slots : Accounts → Accounts → List Slot
changed_slots pre post = slots_in any post ++ slots_in (gone post) pre

slots_changed-changes :
    (pre post : Accounts)
    → (changes pre post).slots_changed ≡ length (changed_slots pre post) % u64_mod
unfolding changes
slots_changed-changes pre post =
    let zero_changes : Changes = record { slots_changed = 0; changed_storage_tries = [] } in
    let deleted : Changes = deleted_accounts post pre zero_changes in
    omega (
      arith,
      slots_changed-deleted_accounts post pre zero_changes,
      slots_changed-written_accounts post deleted,
      written_accounts-IsSmall post deleted
          (deleted_accounts-IsSmall post pre zero_changes (omega arith)),
      length-append (slots_in any post) (slots_in (gone post) pre),
    )

mem-changed_slots :
    (a k : String) (pre post : Accounts)
    → IsDict post
    → mem (a, k) (changed_slots pre post) ≡ (named a k pre || named a k post)
mem-changed_slots a k pre post h = ground (
  arith,
  mem-append (a, k) (slots_in any post) (slots_in (gone post) pre),
  mem-slots_in any a k post,
  mem-slots_in (gone post) a k pre,
  slot_in-named a k post h,
)

changed_slots-IsDistinct :
    (pre post : Accounts) → AreDicts pre → AreDicts post → IsDistinct (changed_slots pre post)
changed_slots-IsDistinct pre post h k =
    IsDistinct-append (slots_in any post) (slots_in (gone post) pre)
      (slots_in-IsDistinct any post k) (slots_in-IsDistinct (gone post) pre h)
      λ p m. ground (
        arith,
        mem-slots_in any p.0 p.1 post,
        mem-slots_in (gone post) p.0 p.1 pre,
        slot_in-named p.0 p.1 post k.0,
      )

-- Where the traces of a block are loaded, `SlotsChanged` is the number, modulo 2 ^ 64, of the
-- distinct pairs of an account and a slot that some trace names before or after its transaction.
pub slots_changed_lem :
    (tracer : StorageTracer) (s : BlockCreationStats) (traces : List StorageTrace)
    → tracer.retry_traces 3 (tracer.trace_block s.block_hash) ≡ ok traces
    → (ps : List Slot) × IsDistinct ps
      × ((a k : String) → mem (a, k) ps ≡ touched a k traces)
      × ((record_storage_changes tracer s).slots_changed ≡ length ps % u64_mod)
unfolding record_storage_changes traces_loaded
slots_changed_lem tracer s traces loaded =
    let m = merge_traces traces ([], []) in
    let dicts = merge_traces-AreDicts traces [] [] (tt, tt) (tt, tt) in
    (
      changed_slots m.0 m.1,
      changed_slots-IsDistinct m.0 m.1 dicts.0 dicts.1,
      λ a k.
          ground
            (arith, mem-changed_slots a k m.0 m.1 dicts.1.0, named-merge_traces a k traces [] []),
      rw loaded (slots_changed-changes m.0 m.1),
    )
