-- ===== src/Manager/Invariant.antt =====
-- The invariant of the manager of rk3588-media-gateway/src/channel/channel_manager.c, and what the
-- loops over the slots and the writes to one slot do to it.
pub mod Loops
pub mod Reloading
pub mod Commands
pub mod Creation
pub mod History
pub mod Finishing
pub mod Lifecycle
use learn_apue.Base.{
  ℕ, zero, suc, ◌+◌, ◌<◌, ◌≤◌, ◌^◌, Bool, true, false, List, [], ◌∷◌, Option, none, some, ◌≡◌, refl,
  arith, get_elem?, set, length,
}
use learn_apue.Base.Text.{Bytes, str_eq_iff}
use learn_apue.Config.{max_channels}
use learn_apue.Manager.{Entry, Manager, channel_of}
use learn_apue.Manager.OneEntry.{IsEntry, Same, running, count_of}
use learn_apue.Manager.Registry.{AreDistinct}
use learn_apue.Manager.Reload.Refines.{IsRegistry}
use learn_apue.Manager.View.{served}

abbrev pub AreEntries : List Entry → Type 0
AreEntries [] = Unit
AreEntries (e ∷ es) = IsEntry e × AreEntries es

-- No entry has a thread.
abbrev pub AreIdle : List Entry → Type 0
AreIdle [] = Unit
AreIdle (e ∷ es) = (e.thread_started ≡ false) × (e.thread_running ≡ false) × AreIdle es

-- How many threads run.
unfoldable pub threads_running : List Entry → ℕ
threads_running [] = 0
threads_running (e ∷ es) = running e + threads_running es

-- Every thread that runs was started, and only an occupied entry has one; `active_threads` counts
-- the threads that run; the slots are there and serve distinct channels; and no thread, the sampler's
-- included, was started before the manager.
pub record IsManager (m : Manager) : Type 0 where
  pub registry : IsRegistry m
  pub entries_fit : AreEntries m.entries
  pub counted : m.active_threads ≡ threads_running m.entries
  pub idle_before : m.started ≡ false → AreIdle m.entries
  pub sampler_before : m.started ≡ false → m.metrics_thread_started ≡ false

pub threads_running-le : (es : List Entry) → threads_running es ≤ length es
unfolding threads_running
threads_running-le [] = omega arith
threads_running-le (e ∷ es) = ground (arith, threads_running-le es)

pub AreIdle-AreEntries : (es : List Entry) → AreIdle es → AreEntries es
AreIdle-AreEntries [] h = tt
AreIdle-AreEntries (e ∷ es) h = ground (arith, AreIdle-AreEntries es)

pub AreIdle-none : (es : List Entry) → AreIdle es → threads_running es ≡ 0
unfolding threads_running
AreIdle-none [] h = refl
AreIdle-none (e ∷ es) h = ground (arith, AreIdle-none es)

-- The lists serve the same channels from the same slots.
abbrev pub Alike : List Entry → List Entry → Type 0
Alike [] [] = Unit
Alike (e ∷ es) (e' ∷ es') = Same e e' × Alike es es'
Alike _ _ = ⊥

pub Alike-refl : (es : List Entry) → Alike es es
Alike-refl [] = tt
Alike-refl (e ∷ es) = ground (arith, Alike-refl es)

pub Alike-trans : (es fs gs : List Entry) → Alike es fs → Alike fs gs → Alike es gs
Alike-trans [] [] [] h k = tt
Alike-trans (e ∷ es) (f ∷ fs) (g ∷ gs) h k = ground (arith, Alike-trans es fs gs)
Alike-trans _ _ _ h k = ground arith

pub Alike-served : (es es' : List Entry) (id : Bytes) → Alike es es' → served es' id ≡ served es id
unfolding served
Alike-served [] [] id h = refl
Alike-served (e ∷ es) (e' ∷ es') id h = ground (arith, Alike-served es es' id)
Alike-served _ _ id h = ground arith

pub Alike-AreDistinct : (es es' : List Entry) → Alike es es' → AreDistinct es → AreDistinct es'
Alike-AreDistinct [] [] h d = tt
Alike-AreDistinct (e ∷ es) (e' ∷ es') h d =
    ground (arith, Alike-AreDistinct es es', Alike-served es es' (channel_of e).id)
Alike-AreDistinct _ _ h d = ground arith

pub length-Alike : (es es' : List Entry) → Alike es es' → length es' ≡ length es
length-Alike [] [] h = refl
length-Alike (e ∷ es) (e' ∷ es') h = ground (arith, length-Alike es es')
length-Alike _ _ h = ground arith

-- A write to one slot.
pub Alike-set :
    (es : List Entry) (index : ℕ) (e e' : Entry)
    → get_elem? es index ≡ some e
    → Same e e'
    → Alike es (set es index e')
Alike-set [] index e e' at s = absurd (ground arith)
Alike-set (x ∷ es) zero e e' at s = ground (arith, Alike-refl es)
Alike-set (x ∷ es) (suc index) e e' at s = ground (arith, Alike-set es index e e')

pub AreEntries-set :
    (es : List Entry) (index : ℕ) (e' : Entry)
    → IsEntry e'
    → AreEntries es
    → AreEntries (set es index e')
AreEntries-set [] index e' fit h = tt
AreEntries-set (x ∷ es) zero e' fit h = ground arith
AreEntries-set (x ∷ es) (suc index) e' fit h = ground (arith, AreEntries-set es index e')

pub AreEntries-get_elem? :
    (es : List Entry) (index : ℕ) {e : Entry}
    → get_elem? es index ≡ some e
    → AreEntries es
    → IsEntry e
AreEntries-get_elem? [] index at h = absurd (ground arith)
AreEntries-get_elem? (x ∷ es) zero at h = ground arith
AreEntries-get_elem? (x ∷ es) (suc index) {e} at h =
    AreEntries-get_elem? es index {e = e} (ground arith) h.1

pub threads_running-set :
    (es : List Entry) (index : ℕ) (e e' : Entry)
    → get_elem? es index ≡ some e
    → threads_running (set es index e') + running e ≡ threads_running es + running e'
unfolding threads_running
threads_running-set [] index e e' at = absurd (ground arith)
threads_running-set (x ∷ es) zero e e' at = ground arith
threads_running-set (x ∷ es) (suc index) e e' at = ground (arith, threads_running-set es index e e')

pub AreIdle-get_elem? :
    (es : List Entry) (index : ℕ) {e : Entry}
    → get_elem? es index ≡ some e
    → AreIdle es
    → (e.thread_started ≡ false) × (e.thread_running ≡ false)
AreIdle-get_elem? [] index at h = absurd (ground arith)
AreIdle-get_elem? (x ∷ es) zero at h = ground arith
AreIdle-get_elem? (x ∷ es) (suc index) {e} at h =
    AreIdle-get_elem? es index {e = e} (ground arith) h.2
