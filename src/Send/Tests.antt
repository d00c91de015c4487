-- ===== src/Send/Tests.antt =====
-- A message that is submitted again at once.
use alborz.Prelude.{
  ℕ, ◌+◌, ◌≤◌, ◌<◌, String, true, false, List, [], ◌∷◌, none, ok, ◌≡◌, refl, arith,
}
use alborz.Send.{
  Claims, Course, accepted, send_already_accepted, sent, unexpired, claim_send, finish_send,
  end_send, deliver, submit,
}
use alborz.Send.Once.{IsWithin, handed_over, at_most_once}

abbrev no_claims : Claims
no_claims = record { stored = λ k. none; active = λ k. false }

abbrev goes_well : ℕ → Course
goes_well now = record {
  claimed = now;
  claim_taken = true;
  sent_found = true;
  released = true;
  delivery = accepted;
  accepted_at = now + 1;
  acceptance_recorded = true;
  followed_up = true;
  finished_at = now + 2;
  result_recorded = true;
}

abbrev twice : List (String × Course)
twice = ("m1", goes_well 100) ∷ ("m1", goes_well 200) ∷ []

first_is_sent : (submit "m1" (goes_well 100) no_claims).0 ≡ (sent, true)
unfolding submit claim_send unexpired deliver finish_send end_send
first_is_sent = refl

second_is_refused :
    (submit "m1" (goes_well 200) (submit "m1" (goes_well 100) no_claims).1).0
    ≡ (send_already_accepted, false)
unfolding submit claim_send unexpired deliver finish_send end_send
second_is_refused = refl

-- After the window the same message is sent again.
third_is_sent :
    (submit "m1" (goes_well 700000000000) (submit "m1" (goes_well 100) no_claims).1).0
    ≡ (sent, true)
unfolding submit claim_send unexpired deliver finish_send end_send
third_is_sent = refl

within : (now : ℕ) → 100 ≤ now → now < 300 → IsWithin 100 ("m1", goes_well now)
within now le lt = record {
  begins = le;
  ends = omega (arith, lt);
  then_accepted = omega arith;
  then_finished = omega arith;
}

at_most_once_example : handed_over "m1" twice no_claims ≤ 1
at_most_once_example =
    at_most_once "m1" 100 twice no_claims
      (within 100 (omega arith) (omega arith), (within 200 (omega arith) (omega arith), tt))

-- One caller releases its claim, a second claims, and the first then ends: the second is still
-- sending when its claim runs out, and a third caller's claim is new.
abbrev second_sends : Claims
second_sends =
    end_send "m1"
      (claim_send true "m1" 20 (finish_send "m1" 0 15 (claim_send true "m1" 10 no_claims).1)).1

third_claims : (claim_send true "m1" 700000000000 second_sends).0 ≡ ok (1, true)
unfolding claim_send unexpired finish_send end_send
third_claims = refl
