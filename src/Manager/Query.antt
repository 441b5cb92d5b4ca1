-- ===== src/Manager/Query.antt =====
-- The published status of rk3588-media-gateway/src/channel/channel_manager.c: one snapshot, or all
-- of them, with the metrics of the worker that the snapshot names.
pub mod Agree
use learn_apue.Base.{
  ℕ, suc, Bool, true, false, not, ◌&&◌, List, [], ◌∷◌, ◌++◌, Option, none, some, leb, if◌then◌else◌,
}
use learn_apue.Base.Int.{eq_ℤ}
use learn_apue.Base.Text.{Bytes, text, str_eq}
use learn_apue.Manager.{Entry, Manager}
use learn_apue.Snapshot.{Snapshot, MetricsSnapshot, is_worker, no_metrics}
use learn_apue.Status.{Status, ok, overflow, not_found, GwError, error_set, error_clear}

unfoldable pub attach_worker_metrics : Entry → Snapshot → Snapshot
attach_worker_metrics e s = record s {
  worker_metrics =
      if is_worker s.process_kind && eq_ℤ e.worker_metrics.pid s.process_pid
      then e.worker_metrics
      else no_metrics s.process_pid;
}

-- What is copied out for an entry.
abbrev pub copied : Entry → Snapshot
copied e = attach_worker_metrics e e.snapshot

unfoldable pub find_snapshot : List Entry → Bytes → Option Snapshot
find_snapshot [] id = none
find_snapshot (e ∷ es) id =
    let later = find_snapshot es id in
    if e.occupied && str_eq e.snapshot.channel_id id then some (copied e) else later

pub record Found {ℓ} (A : Type ℓ) : Type ℓ where
  pub held : Option A
  pub status : Status
  pub error : Option GwError

abbrev pub found_snapshot : Bytes → Option GwError → Option Snapshot → Found Snapshot
found_snapshot id error (some s) = record { held = some s; status = ok; error = error_clear error }
found_snapshot id error none = record {
  held = none;
  status = not_found;
  error = error_set error not_found (text "channel '" ++ (id ++ text "' is not managed"));
}

unfoldable pub get_snapshot : Manager → Bytes → Option GwError → Found Snapshot
get_snapshot m id error = found_snapshot id error (find_snapshot m.entries id)

-- The loop: what is copied behind the first `used` places, or `none` when the array is full.
unfoldable pub copy_snapshots : ℕ → ℕ → List Entry → Option (List Snapshot)
copy_snapshots capacity used [] = some []
copy_snapshots capacity used (e ∷ es) =
    let skipped = copy_snapshots capacity used es in
    let rest = copy_snapshots capacity (suc used) es in
    if not e.occupied
    then skipped
    else if leb capacity used
    then none
    else elim rest [ none ↦ none | some more ↦ some (copied e ∷ more) ]

abbrev pub listed : Option GwError → Option (List Snapshot) → Found (List Snapshot)
listed error (some snapshots) = record {
  held = some snapshots;
  status = ok;
  error = error_clear error;
}
listed error none = record {
  held = none;
  status = overflow;
  error = error_set error overflow (text "snapshot array capacity is too small");
}

unfoldable pub list_snapshots : Manager → ℕ → Option GwError → Found (List Snapshot)
list_snapshots m capacity error = listed error (copy_snapshots capacity 0 m.entries)
