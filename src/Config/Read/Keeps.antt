-- ===== src/Config/Read/Keeps.antt =====
-- What the readers of one field of rk3588-media-gateway/src/config/config.c keep: a predicate that
-- every text that fits and every `int` keeps.
use learn_apue.Base.{
  ℕ, ◌<◌, Bool, true, false, List, [], ◌∷◌, ◌++◌, Option, none, some, ◌≡◌, arith, length,
}
use learn_apue.Base.Int.{ℤ}
use learn_apue.Base.Text.{Bytes}
use learn_apue.Config.Read.{
  Node, scalar, sequence, mapping, Parsed, done, failed, endless, Field, read_fields, ◌>>=◌,
  mapping_value, read_string, read_int, read_bool, string_field, int_field, bool_field, small_int,
  copied, in_int, int_read, bool_read, bool_of, string_at, int_at, bool_at, store,
}
use learn_apue.Config.Redact.{copy_text}
use learn_apue.Progress.Numbers.{parse_i64}
use learn_apue.Status.{GwError}

-- What is read satisfies `P`, and reading ends.
abbrev pub Holds : {A : Type 0} → (A → Type 0) → Parsed A → Type 0
Holds P (done a error) = P a
Holds P (failed status error) = Unit
Holds P endless = ⊥

abbrev pub Keeps : {A : Type 0} → (A → Type 0) → Field A → Type 0
Keeps P field = (a : _) (error : Option GwError) → P a → Holds P (field a error)

abbrev pub AllKeep : {A : Type 0} → (A → Type 0) → List (Field A) → Type 0
AllKeep P [] = Unit
AllKeep P (field ∷ fields) = Keeps P field × AllKeep P fields

pub bind-Holds :
    {A B : Type 0} (Q : B → Type 0) (P : A → Type 0) (r : Parsed B)
    (f : B → Option GwError → Parsed A)
    → Holds Q r
    → ((b : B) (error : Option GwError) → Q b → Holds P (f b error))
    → Holds P (r >>= f)
bind-Holds Q P (done b error) f h k = k b error h
bind-Holds Q P (failed status error) f h k = tt
bind-Holds Q P endless f h k = elim h [ ]

-- What a reader finds, if anything, satisfies `Q`.
abbrev pub IfSome : {B : Type 0} → (B → Type 0) → Option B → Type 0
IfSome Q none = Unit
IfSome Q (some b) = Q b

abbrev pub IsShort : ℕ → Bytes → Type 0
IsShort capacity v = length v < capacity

abbrev pub IsSmall : ℤ → Type 0
IsSmall v = small_int v ≡ true

copied-Holds :
    (key : Bytes) (capacity : ℕ) (error : Option GwError) (value : Bytes)
    → Holds (IfSome (IsShort capacity)) (copied key capacity error (copy_text capacity [] value))
unfolding copy_text
copied-Holds key capacity error value = ground arith

int_read-Holds :
    (key : Bytes) (error : Option GwError) (o : Option ℤ)
    → Holds (IfSome IsSmall) (int_read key error (in_int o))
int_read-Holds key error none = tt
int_read-Holds key error (some n) = ground arith

bool_read-Holds :
    (key : Bytes) (error : Option GwError) (o : Option Bool)
    → Holds (IfSome (λ b. Unit {0})) (bool_read key error o)
bool_read-Holds key error none = tt
bool_read-Holds key error (some b) = tt

string_at-Holds :
    (key : Bytes) (capacity : ℕ) (required : Bool) (error : Option GwError) (o : Option Node)
    → Holds (IfSome (IsShort capacity)) (string_at key capacity required error o)
string_at-Holds key capacity true error none = tt
string_at-Holds key capacity false error none = tt
string_at-Holds key capacity required error (some (scalar value)) =
    copied-Holds key capacity error value
string_at-Holds key capacity required error (some (sequence items)) = tt
string_at-Holds key capacity required error (some (mapping pairs)) = tt

pub int_at-Holds :
    (key : Bytes) (error : Option GwError) (o : Option Node)
    → Holds (IfSome IsSmall) (int_at key error o)
int_at-Holds key error none = tt
int_at-Holds key error (some (scalar value)) = int_read-Holds key error (parse_i64 value)
int_at-Holds key error (some (sequence items)) = tt
int_at-Holds key error (some (mapping pairs)) = tt

bool_at-Holds :
    (key : Bytes) (error : Option GwError) (o : Option Node)
    → Holds (IfSome (λ b. Unit {0})) (bool_at key error o)
bool_at-Holds key error none = tt
bool_at-Holds key error (some (scalar value)) = bool_read-Holds key error (bool_of value)
bool_at-Holds key error (some (sequence items)) = tt
bool_at-Holds key error (some (mapping pairs)) = tt

module _ {A : Type 0} (P : A → Type 0) where
  pub read_fields-Keeps :
      (fields : List (Field A)) → AllKeep P fields → Keeps P (read_fields fields)
  unfolding read_fields
  read_fields-Keeps [] h a error p = p
  read_fields-Keeps (field ∷ fields) h a error p =
      bind-Holds P P (field a error) (read_fields fields) (h.0 a error p)
        (read_fields-Keeps fields h.1)

  pub AllKeep-append : (fs gs : List (Field A)) → AllKeep P fs → AllKeep P gs → AllKeep P (fs ++ gs)
  AllKeep-append [] gs h k = k
  AllKeep-append (f ∷ fs) gs h k = (h.0, AllKeep-append fs gs h.1 k)

  module _ (get_node : ℕ → Option Node) (m : Option Node) (key : Bytes) where
    pub string_field-Keeps :
        (capacity : ℕ) (required : Bool) (put : Bytes → A → A)
        → ((v : Bytes) (a : A) → length v < capacity → P a → P (put v a))
        → Keeps P (string_field get_node m key capacity required put)
    unfolding string_field read_string
    string_field-Keeps capacity required put h a error p =
        bind-Holds (IfSome (IsShort capacity)) P
          (read_string get_node m key capacity required error) _
          (string_at-Holds key capacity required error (mapping_value get_node m key))
          λ o error' short.
            elim o as (λ o. IfSome (IsShort capacity) o → P (store put a o)) [
              | none ↦ λ _. p
              | some v ↦ λ short. h v a short p
            ]
              short

    pub int_field-Keeps :
        (put : ℤ → A → A)
        → ((v : ℤ) (a : A) → small_int v ≡ true → P a → P (put v a))
        → Keeps P (int_field get_node m key put)
    unfolding int_field read_int
    int_field-Keeps put h a error p =
        bind-Holds (IfSome IsSmall) P (read_int get_node m key error) _
          (int_at-Holds key error (mapping_value get_node m key))
          λ o error' small.
            elim o as (λ o. IfSome IsSmall o → P (store put a o)) [
              | none ↦ λ _. p
              | some v ↦ λ small. h v a small p
            ]
              small

    pub bool_field-Keeps :
        (put : Bool → A → A)
        → ((v : Bool) (a : A) → P a → P (put v a))
        → Keeps P (bool_field get_node m key put)
    unfolding bool_field read_bool
    bool_field-Keeps put h a error p =
        bind-Holds (IfSome (λ b. Unit)) P (read_bool get_node m key error) _
          (bool_at-Holds key error (mapping_value get_node m key))
          λ o error' _. elim o as (λ o. P (store put a o)) [ none ↦ p | some v ↦ h v a p ]
