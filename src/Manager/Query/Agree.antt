-- ===== src/Manager/Query/Agree.antt =====
-- The two ways to read the status of a channel in
-- rk3588-media-gateway/src/channel/channel_manager.c agree.
use mathlib.Core.Path.{subst}
use learn_apue.Base.{
  ℕ, suc, ◌+◌, ◌≤◌, ◌<◌, true, List, [], ◌∷◌, Option, none, some, ◌≡◌, ◌∙◌, ◌↔◌, arith, length,
  if◌then◌else◌, Bool-cases, Option-cases, inl, inr,
}
use learn_apue.Base.Int.{eq_ℤ_iff}
use learn_apue.Base.Text.{Bytes, str_eq}
use learn_apue.Manager.{Entry, Manager}
use learn_apue.Manager.Query.{
  copied, attach_worker_metrics, find_snapshot, found_snapshot, get_snapshot, copy_snapshots,
  list_snapshots,
}
use learn_apue.Manager.Registry.{occupancy}
use learn_apue.Snapshot.{Snapshot, is_worker}
use learn_apue.Status.{GwError}

-- The first snapshot of that name in a list of them.
unfoldable pub lookup : List Snapshot → Bytes → Option Snapshot
lookup [] id = none
lookup (s ∷ more) id =
    let later = lookup more id in if str_eq s.channel_id id then some s else later

abbrev pub AllCopied : List Entry → ℕ → List Snapshot → Type 0
AllCopied es used snapshots =
    (length snapshots ≡ occupancy es) × ((id : Bytes) → lookup snapshots id ≡ find_snapshot es id)

copy_snapshots-AllCopied :
    (capacity used : ℕ) (es : List Entry) {snapshots : List Snapshot}
    → copy_snapshots capacity used es ≡ some snapshots
    → AllCopied es used snapshots
unfolding copy_snapshots lookup find_snapshot occupancy attach_worker_metrics
copy_snapshots-AllCopied capacity used [] q = ground arith
copy_snapshots-AllCopied capacity used (e ∷ es) {snapshots} q = elim (Bool-cases e.occupied) [
  | inr free ↦
      let rest = copy_snapshots-AllCopied capacity used es {snapshots = snapshots} (ground arith) in
      ((ground (arith, rest.0)), (λ id. ground (arith, rest.1 id)))
  | inl taken ↦ elim (Option-cases (copy_snapshots capacity (suc used) es)) [
    | inl full ↦ absurd (ground arith)
    | inr (more, k) ↦
        let rest = copy_snapshots-AllCopied capacity (suc used) es {snapshots = more} k in
        let same : copied e ∷ more ≡ snapshots = ground arith in
        subst (AllCopied (e ∷ es) used) same
          ((ground (arith, rest.0)), (λ id. ground (arith, rest.1 id)))
  ]
]

copy_snapshots_iff :
    (capacity used : ℕ) (es : List Entry)
    → used ≤ capacity
    → (copy_snapshots capacity used es ≡ none) ↔ (capacity < used + occupancy es)
unfolding copy_snapshots occupancy
copy_snapshots_iff capacity used [] h = ground arith
copy_snapshots_iff capacity used (e ∷ es) h =
    ground (arith, copy_snapshots_iff capacity used es, copy_snapshots_iff capacity (suc used) es)

found_held :
    (id : Bytes) (error : Option GwError) (o : Option Snapshot)
    → o ≡ (found_snapshot id error o).held
found_held id error o = ground arith

-- What a query holds, or that it holds nothing.
abbrev pub IsListing : Manager → ℕ → Option (List Snapshot) → Type 0
IsListing m capacity none = capacity < occupancy m.entries
IsListing m capacity (some snapshots) =
    (length snapshots ≡ occupancy m.entries)
    × ((id : Bytes) (error : Option GwError) → lookup snapshots id ≡ (get_snapshot m id error).held)

-- Listing the snapshots fails only when the array is smaller than the number of managed channels;
-- otherwise it holds one snapshot for each, and looking a channel up in the list finds what a query
-- for that channel alone returns.
pub list_snapshots-get_snapshot :
    (m : Manager) (capacity : ℕ) (error : Option GwError)
    → IsListing m capacity (list_snapshots m capacity error).held
unfolding list_snapshots get_snapshot
list_snapshots-get_snapshot m capacity error =
    elim (Option-cases (copy_snapshots capacity 0 m.entries)) [
      | inl full ↦ ground (arith, copy_snapshots_iff capacity 0 m.entries)
      | inr (snapshots, q) ↦
          let (l, all) = copy_snapshots-AllCopied capacity 0 m.entries {snapshots = snapshots} q in
          rw q (l, λ id e. all id ∙ found_held id e (find_snapshot m.entries id))
    ]

-- Metrics are shown only beside the worker that they were measured on.
pub attach_worker_metrics-pid :
    (e : Entry) (s : Snapshot)
    → (let shown = attach_worker_metrics e s in
        (shown.worker_metrics.pid ≡ s.process_pid)
        × (shown.worker_metrics.available ≡ true
            → (is_worker s.process_kind ≡ true) × (e.worker_metrics.pid ≡ s.process_pid)))
unfolding attach_worker_metrics
attach_worker_metrics-pid e s = ground (arith, eq_ℤ_iff e.worker_metrics.pid s.process_pid)
