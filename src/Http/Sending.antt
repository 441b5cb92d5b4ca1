-- ===== src/Http/Sending.antt =====
-- `send_all` of rk3588-media-gateway/src/api/http_server.c.
use mathlib.Core.List.{append_assoc}
use learn_apue.Base.{
  ℕ, zero, suc, Bool, true, false, List, [], ◌∷◌, ◌++◌, ◌≡◌, refl, ap, ◌∙◌, ◌==◌, take, drop,
  if◌then◌else◌, Bool-cases, inl, inr,
}
use learn_apue.Base.Text.{Bytes}

-- An answer of `send`: how many bytes it took of those that it is offered, EINTR, or another error.
pub data Sent : Type 0 where
  took : ℕ → Sent
  interrupted failed : Sent

-- The bytes that were sent, whether they are all, and the answers to the next calls.
pub record Delivery : Type 0 where
  pub delivered : Bytes
  pub complete : Bool
  pub rest : List Sent

abbrev pub over : Bool → List Sent → Delivery
over complete rest = record { delivered = []; complete = complete; rest = rest }

abbrev pub behind : Bytes → Delivery → Delivery
behind first d = record d { delivered = first ++ d.delivered }

abbrev pub is_empty : Bytes → Bool
is_empty [] = true
is_empty (c ∷ cs) = false

-- The loop, with the bytes that are left. Where the answers end, `send` fails.
unfoldable pub send_all : List Sent → Bytes → Delivery
send_all [] s = over (is_empty s) []
send_all (answer ∷ more) s =
    let going : Delivery = elim answer [
      | interrupted ↦ send_all more s
      | failed ↦ over false more
      | took n ↦ elim (n == 0) [
        | true ↦ over false more
        | false ↦ behind (take n s) (send_all more (drop n s))
      ]
    ] in
    if is_empty s then over true (answer ∷ more) else going

-- What was sent is a beginning of the bytes, and all of them if the call says so.
pub record IsDelivery (s : Bytes) (d : Delivery) : Type 0 where
  pub missing : Bytes
  pub beginning : d.delivered ++ missing ≡ s
  pub whole : d.complete ≡ true → d.delivered ≡ s

take-drop : (n : ℕ) (s : Bytes) → take n s ++ drop n s ≡ s
take-drop zero s = refl
take-drop (suc n) [] = refl
take-drop (suc n) (c ∷ s) = ap (λ t. c ∷ t) (take-drop n s)

pub over-IsDelivery : (s : Bytes) (rest : List Sent) → IsDelivery s (over (is_empty s) rest)
over-IsDelivery [] rest = record { missing = []; beginning = refl; whole = λ h. refl }
over-IsDelivery (c ∷ cs) rest = record { missing = c ∷ cs; beginning = refl; whole = λ h. cc }

failed-IsDelivery : (s : Bytes) (rest : List Sent) → IsDelivery s (over false rest)
failed-IsDelivery s rest = record { missing = s; beginning = refl; whole = λ h. cc }

behind-IsDelivery :
    (n : ℕ) (s : Bytes) (d : Delivery)
    → IsDelivery (drop n s) d
    → IsDelivery s (behind (take n s) d)
behind-IsDelivery n s d h = record {
  missing = h.missing;
  beginning =
      append_assoc (take n s) d.delivered h.missing
      ∙ ap (λ t. take n s ++ t) h.beginning
      ∙ take-drop n s;
  whole = λ done. ap (λ t. take n s ++ t) (h.whole done) ∙ take-drop n s;
}

-- What holds of both branches of a test.
either-IsDelivery :
    (b : Bool) (s : Bytes) (x y : Delivery)
    → (b ≡ true → IsDelivery s x)
    → IsDelivery s y
    → IsDelivery s (if b then x else y)
either-IsDelivery true s x y p q = p refl
either-IsDelivery false s x y p q = q

empty-IsDelivery :
    (s : Bytes) (rest : List Sent) → is_empty s ≡ true → IsDelivery s (over true rest)
empty-IsDelivery [] rest e = record { missing = []; beginning = refl; whole = λ h. refl }
empty-IsDelivery (c ∷ cs) rest e = cc

pub send_all-IsDelivery : (answers : List Sent) (s : Bytes) → IsDelivery s (send_all answers s)
unfolding send_all
send_all-IsDelivery [] s = over-IsDelivery s []
send_all-IsDelivery (interrupted ∷ more) s =
    either-IsDelivery (is_empty s) s _ _ (empty-IsDelivery s (interrupted ∷ more))
      (send_all-IsDelivery more s)
send_all-IsDelivery (failed ∷ more) s =
    either-IsDelivery (is_empty s) s _ _ (empty-IsDelivery s (failed ∷ more))
      (failed-IsDelivery s more)
send_all-IsDelivery (took n ∷ more) s =
    either-IsDelivery (is_empty s) s _ _ (empty-IsDelivery s (took n ∷ more))
      (elim (Bool-cases (n == 0)) [
        | inl none_taken ↦ rw none_taken (failed-IsDelivery s more)
        | inr some_taken ↦
            rw some_taken (
              behind-IsDelivery n s (send_all more (drop n s))
                (send_all-IsDelivery more (drop n s)))
      ])
