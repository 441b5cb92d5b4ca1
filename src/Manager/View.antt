-- ===== src/Manager/View.antt =====
-- The registry as a map from channel identifiers to channels, and what the searches and writes of
-- rk3588-media-gateway/src/channel/channel_manager.c do to that map.
use learn_apue.Base.{
  ℕ, zero, suc, ◌+◌, Bool, true, false, List, [], ◌∷◌, Option, none, some, ◌≡◌, ◌↔◌, arith,
  if◌then◌else◌, get_elem?, set, Bool-cases, inl, inr,
}
use learn_apue.Base.Text.{Bytes, str_eq, str_eq_iff}
use learn_apue.Config.{ChannelConfig}
use learn_apue.Manager.{Entry, channel_of, serves, find_from, find_entry, find_enabled_channel}

-- The channel that the registry serves under an identifier.
unfoldable pub served : List Entry → Bytes → Option ChannelConfig
served [] id = none
served (e ∷ es) id = let later = served es id in if serves id e then some (channel_of e) else later

-- Where a search stops: the index counted from the first, and the entry there.
pub record IsHit (test : Entry → Bool) (first slot : ℕ) (es : List Entry) (e : Entry) : Type 0 where
  pub index : ℕ
  pub slot_eq : slot ≡ first + index
  pub stands : get_elem? es index ≡ some e
  pub passes : test e ≡ true

pub find_from-IsHit :
    (test : Entry → Bool) (first : ℕ) (es : List Entry) {slot : ℕ} {e : Entry}
    → find_from test first es ≡ some (slot, e)
    → IsHit test first slot es e
unfolding find_from
find_from-IsHit test first [] q = absurd (ground arith)
find_from-IsHit test first (x ∷ es) {slot} {e} q = elim (Bool-cases (test x)) [
  | inl hit ↦
      let (s, same) : (first ≡ slot) × (x ≡ e) = ground arith in
      record { index = 0; slot_eq = omega arith; stands = ground arith; passes = ground arith }
  | inr miss ↦
      let later = find_from-IsHit test (suc first) es {slot = slot} {e = e} (ground arith) in
      record {
        index = suc later.index;
        slot_eq = omega (arith, later.slot_eq);
        stands = later.stands;
        passes = later.passes;
      }
]

find_from-served :
    (id : Bytes) (first : ℕ) (es : List Entry)
    → (find_from (serves id) first es ≡ none) ↔ (served es id ≡ none)
unfolding find_from served
find_from-served id first [] = ground arith
find_from-served id first (e ∷ es) = ground (arith, find_from-served id (suc first) es)

pub find_entry_iff :
    (es : List Entry) (id : Bytes) → (find_entry es id ≡ none) ↔ (served es id ≡ none)
unfolding find_entry
find_entry_iff es id = find_from-served id 0 es

abbrev pub or_else {ℓ} : {A : Type ℓ} → Option A → Option A → Option A
or_else none b = b
or_else (some a) b = some a

-- A channel written to a free entry is served beside the others, if its identifier is new.
pub served-set :
    (es : List Entry) (index : ℕ) (e e' : Entry) (id : Bytes)
    → get_elem? es index ≡ some e
    → e.occupied ≡ false
    → e'.occupied ≡ true
    → served es (channel_of e').id ≡ none
    → served (set es index e') id
      ≡ (if str_eq (channel_of e').id id then some (channel_of e') else served es id)
unfolding served
served-set [] index e e' id at free taken new = absurd (ground arith)
served-set (x ∷ es) zero e e' id at free taken new =
    elim (Bool-cases (str_eq (channel_of e').id id)) [
      | inl same ↦ ground arith
      | inr other ↦ ground arith
    ]
served-set (x ∷ es) (suc index) e e' id at free taken new = ground (
  arith,
  served-set es index e e' id,
  str_eq_iff (channel_of x).id (channel_of e').id,
  str_eq_iff (channel_of e').id id,
  str_eq_iff (channel_of x).id id,
)

-- The search in a configuration returns an enabled channel of that name.
pub find_enabled_sound :
    (channels : List ChannelConfig) (id : Bytes) {c : ChannelConfig}
    → find_enabled_channel channels id ≡ some c
    → (c.enabled ≡ true) × (c.id ≡ id)
unfolding find_enabled_channel
find_enabled_sound [] id q = absurd (ground arith)
find_enabled_sound (x ∷ channels) id {c} q =
    ground (arith, find_enabled_sound channels id {c = c}, str_eq_iff x.id id)
