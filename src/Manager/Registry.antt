-- ===== src/Manager/Registry.antt =====
-- The slots of the registry of rk3588-media-gateway/src/channel/channel_manager.c: how many are taken,
-- and that no two serve the same channel.
use learn_apue.Base.{
  ℕ, zero, suc, ◌+◌, ◌≤◌, true, false, List, [], ◌∷◌, none, some, ◌≡◌, refl, arith, get_elem?, set,
  length,
}
use learn_apue.Base.Text.{str_eq_iff}
use learn_apue.Manager.{Entry, channel_of, is_free, find_from, find_free_entry, put_entry}
use learn_apue.Manager.OneEntry.{count_of}
use learn_apue.Manager.View.{served, served-set, find_from-IsHit}

-- No two occupied entries serve the same channel.
abbrev pub AreDistinct : List Entry → Type 0
AreDistinct [] = Unit
AreDistinct (e ∷ es) = (e.occupied ≡ true → served es (channel_of e).id ≡ none) × AreDistinct es

-- How many entries are occupied.
unfoldable pub occupancy : List Entry → ℕ
occupancy [] = 0
occupancy (e ∷ es) = count_of e.occupied + occupancy es

pub occupancy-le : (es : List Entry) → occupancy es ≤ length es
unfolding occupancy
occupancy-le [] = omega arith
occupancy-le (e ∷ es) = ground (arith, occupancy-le es)

find_from_full :
    (first : ℕ) (es : List Entry) → find_from is_free first es ≡ none → occupancy es ≡ length es
unfolding find_from occupancy
find_from_full first [] q = refl
find_from_full first (e ∷ es) q = ground (arith, find_from_full (suc first) es)

pub find_free_entry_full : (es : List Entry) → find_free_entry es ≡ none → occupancy es ≡ length es
unfolding find_free_entry
find_free_entry_full es q = find_from_full 0 es q

pub length-set : (es : List Entry) (index : ℕ) (e : Entry) → length (set es index e) ≡ length es
length-set [] index e = refl
length-set (x ∷ es) zero e = refl
length-set (x ∷ es) (suc index) e = ground (arith, length-set es index e)

occupancy-set :
    (es : List Entry) (index : ℕ) (e e' : Entry)
    → get_elem? es index ≡ some e
    → e.occupied ≡ false
    → e'.occupied ≡ true
    → occupancy (set es index e') ≡ suc (occupancy es)
unfolding occupancy
occupancy-set [] index e e' at free taken = absurd (ground arith)
occupancy-set (x ∷ es) zero e e' at free taken = ground arith
occupancy-set (x ∷ es) (suc index) e e' at free taken =
    ground (arith, occupancy-set es index e e' at free taken)

AreDistinct-set :
    (es : List Entry) (index : ℕ) (e e' : Entry)
    → get_elem? es index ≡ some e
    → e.occupied ≡ false
    → e'.occupied ≡ true
    → served es (channel_of e').id ≡ none
    → AreDistinct es
    → AreDistinct (set es index e')
unfolding served
AreDistinct-set [] index e e' at free taken new d = absurd (ground arith)
AreDistinct-set (x ∷ es) zero e e' at free taken new d = ground arith
AreDistinct-set (x ∷ es) (suc index) e e' at free taken new d = ground (
  arith,
  AreDistinct-set es index e e',
  served-set es index e e' (channel_of x).id,
  str_eq_iff (channel_of x).id (channel_of e').id,
  str_eq_iff (channel_of e').id (channel_of x).id,
)

-- A channel that is new to the registry takes a free slot.
pub record Filled (es : List Entry) (slot : ℕ) (e e' : Entry) : Type 0 where
  pub one_more_taken : occupancy (put_entry es slot e') ≡ suc (occupancy es)
  pub length_eq : length (put_entry es slot e') ≡ length es
  pub still_distinct : AreDistinct es → AreDistinct (put_entry es slot e')
  pub was_free : e.occupied ≡ false
  pub stood : get_elem? es slot ≡ some e

pub find_free_entry-Filled :
    (es : List Entry) {slot : ℕ} {e : Entry} (e' : Entry)
    → find_free_entry es ≡ some (slot, e)
    → e'.occupied ≡ true
    → served es (channel_of e').id ≡ none
    → Filled es slot e e'
unfolding find_free_entry
find_free_entry-Filled es {slot} {e} e' q taken new =
    let hit = find_from-IsHit is_free 0 es {slot = slot} {e = e} q in
    ground
      (arith, hit, occupancy-set es slot e e', length-set es slot e', AreDistinct-set es slot e e')

-- Where a free slot is found.
pub find_free_entry-stood :
    (es : List Entry) {slot : ℕ} {e : Entry}
    → find_free_entry es ≡ some (slot, e)
    → (get_elem? es slot ≡ some e) × (e.occupied ≡ false)
unfolding find_free_entry
find_free_entry-stood es {slot} {e} q =
    let hit = find_from-IsHit is_free 0 es {slot = slot} {e = e} q in ground (arith, hit)
