-- ===== src/Send.antt =====
-- mail/send_claim.go and the use that mail/send.go makes of it: a message is not sent twice.
pub mod Once
pub mod Tests
use text.Mathlib.Text.{◌==◌ as key_is}
use alborz.Prelude.{
  ℕ, ◌+◌, String, Bool, true, false, not, ◌&&◌, Option, none, some, Result, ok, err, leb, ◌≡◌, ◌⊎◌,
  inl, inr, refl, ◌==◌, if◌then◌else◌,
}

-- The states of a claim.
abbrev pub send_claiming : ℕ
send_claiming = 1

abbrev pub send_accepted : ℕ
send_accepted = 2

abbrev pub send_complete : ℕ
send_complete = 3

abbrev pub send_partial : ℕ
send_partial = 4

-- `sendClaimKeep`: ten minutes, in nanoseconds.
abbrev pub send_claim_keep : ℕ
send_claim_keep = 600000000000

-- What `readSendClaim` reads of a record: a state and its time, or an error.
pub data Claim : Type 0 where
  claim : (state at : ℕ) → Claim
  unreadable : Claim

-- The records under `sendClaimOwner`, and `sendActive`, by the key of account and message.
pub record Claims : Type 0 where
  pub stored : String → Option Claim
  pub active : String → Bool

abbrev pub with_claim : String → Option Claim → (String → Option Claim) → String → Option Claim
with_claim k c stored other = if key_is k other then c else stored other

abbrev pub with_active : String → Bool → (String → Bool) → String → Bool
with_active k b active other = if key_is k other then b else active other

-- What `kv.DeleteExpired` leaves of a record.
unfoldable pub unexpired : Bool → ℕ → Option Claim → Option Claim
unexpired active now none = none
unexpired active now (some unreadable) = some unreadable
unexpired active now (some (claim state at)) =
    if not active && leb (at + send_claim_keep) now then none else some (claim state at)

-- `claimSend` where the data file takes what it writes: the state of the claim, and whether it is new.
unfoldable pub claim_in : String → ℕ → Claims → Result (Unit {0}) (ℕ × Bool) × Claims
unfolding unexpired
claim_in k now s =
    let left : String → Option Claim = λ other. unexpired (s.active other) now (s.stored other) in
    elim (left k) [
      | some (claim state at) ↦ (ok (state, false), record s { stored = left })
      | some unreadable ↦ (err tt, s)
      | none ↦ (
        ok (send_claiming, true),
        record {
          stored = with_claim k (some (claim send_claiming now)) left;
          active = with_active k true s.active;
        },
      )
    ]

-- `claimSend`: where the data file does not take it, nothing is claimed.
unfoldable pub claim_send : Bool → String → ℕ → Claims → Result (Unit {0}) (ℕ × Bool) × Claims
unfolding claim_in
claim_send taken k now s = if taken then claim_in k now s else (err tt, s)

-- `finishSend`: a state, or 0 to release the claim.
unfoldable pub finish_send : String → ℕ → ℕ → Claims → Claims
finish_send k state now s =
    if not (state == 0)
    then record s { stored = with_claim k (some (claim state now)) s.stored }
    else record s { stored = with_claim k none s.stored }

-- `endSend`.
unfoldable pub end_send : String → Claims → Claims
end_send k s = record s { active = with_active k false s.active }

-- What `deliverWithPhase` tells: the server took the message, may have taken it, or did not.
pub data Delivery : Type 0 where
  accepted uncertain refused : Delivery

pub Delivery-cases : (d : Delivery) → ((d ≡ accepted) ⊎ (d ≡ uncertain)) ⊎ (d ≡ refused)
Delivery-cases accepted = inl (inl refl)
Delivery-cases uncertain = inl (inr refl)
Delivery-cases refused = inr refl

-- What happens around one `Submit`: its times, what the servers say, and which of its records are
-- written.
pub record Course : Type 0 where
  pub claimed : ℕ
  pub claim_taken : Bool
  pub sent_found : Bool
  pub released : Bool
  pub delivery : Delivery
  pub accepted_at : ℕ
  pub acceptance_recorded : Bool
  pub followed_up : Bool
  pub finished_at : ℕ
  pub result_recorded : Bool

-- What `Submit` returns, its errors by name.
pub data Submitted : Type 0 where
  claim_failed send_already_accepted send_followup_unknown send_uncertain unknown_state : Submitted
  sent_mailbox_missing send_failed send_accepted_with_errors sent : Submitted

-- What a claim that is not new makes `Submit` return.
abbrev pub refusal : ℕ → Submitted
refusal state =
    if state == send_complete
    then send_already_accepted
    else if state == send_accepted
    then send_followup_unknown
    else if state == send_partial
    then send_followup_unknown
    else if state == send_claiming
    then send_uncertain
    else unknown_state

-- A record that is written only where the data file takes it.
abbrev recorded : Bool → String → ℕ → ℕ → Claims → Claims
recorded written k state now s = if written then finish_send k state now s else s

abbrev clean : Course → Bool
clean o = o.acceptance_recorded && o.followed_up

-- `Submit` after the claim: what it returns, and whether the message may be with the mail server.
unfoldable pub deliver : String → Course → Claims → (Submitted × Bool) × Claims
unfolding finish_send
deliver k o s =
    if not o.sent_found
    then ((sent_mailbox_missing, false), recorded o.released k 0 o.finished_at s)
    else elim o.delivery [
      | uncertain ↦ ((send_uncertain, true), s)
      | refused ↦ ((send_failed, false), recorded o.released k 0 o.finished_at s)
      | accepted ↦ (
        (if clean o && o.result_recorded then sent else send_accepted_with_errors, true),
        recorded o.result_recorded k (if clean o then send_complete else send_partial) o.finished_at
            (recorded o.acceptance_recorded k send_accepted o.accepted_at s),
      )
    ]

-- `Submit` of the message whose claim stands under the key.
unfoldable pub submit : String → Course → Claims → (Submitted × Bool) × Claims
unfolding claim_send deliver end_send
submit k o s =
    let claimed = claim_send o.claim_taken k o.claimed s in
    let delivered = deliver k o claimed.1 in
    elim claimed.0 [
      | err e ↦ ((claim_failed, false), claimed.1)
      | ok (state, true) ↦ (delivered.0, end_send k delivered.1)
      | ok (state, false) ↦ ((refusal state, false), claimed.1)
    ]
