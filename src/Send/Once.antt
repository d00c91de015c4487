-- ===== src/Send/Once.antt =====
-- Within the window of a claim a message reaches the mail server once.
use text.Mathlib.Text.{◌==◌ as key_is}
use alborz.Prelude.{
  ℕ, ◌+◌, ◌≤◌, ◌<◌, String, Bool, true, false, ◌&&◌, List, [], ◌∷◌, All, some, ok, err, ◌⊎◌, ◌≡◌,
  refl, inl, inr, ap, ◌∙◌, arith, if◌then◌else◌, Bool-cases, Result-cases, Option-cases, eq_iff,
  eq_refl, subst,
}
use alborz.Send.{
  claim, unreadable, Claims, send_claim_keep, unexpired, claim_in, claim_send, finish_send,
  end_send, Course, deliver, submit, Delivery-cases, clean, send_complete, send_partial,
  send_accepted, send_claiming,
}

-- A claim stands under the key, made or renewed at `since` or later.
pub record Stands (k : String) (since : ℕ) (s : Claims) : Type 0 where
  pub state : ℕ
  pub at : ℕ
  pub stored : s.stored k ≡ some (claim state at)
  pub recent : since ≤ at

kept :
    (active : Bool) (since now : ℕ) (state at : ℕ)
    → since ≤ at
    → now < since + send_claim_keep
    → unexpired active now (some (claim state at)) ≡ some (claim state at)
unfolding unexpired
kept active since now state at le lt = ground (arith, le, lt)

-- A claim that stands is renewed for nobody within the window.
claim_in-Stands :
    (k : String) (since now : ℕ) (s : Claims)
    → Stands k since s
    → now < since + send_claim_keep
    → (st : ℕ) × ((claim_in k now s).0 ≡ ok (st, false))
unfolding claim_in
claim_in-Stands k since now s h lt =
    (h.state, ground (arith, h.stored, kept (s.active k) since now h.state h.at h.recent lt))

claim_in-stored :
    (k other : String) (since now : ℕ) (s : Claims)
    → Stands k since s
    → now < since + send_claim_keep
    → (claim_in other now s).1.stored k ≡ s.stored k
unfolding claim_in
claim_in-stored k other since now s h lt =
    elim (Option-cases (unexpired (s.active other) now (s.stored other))) [
      | inl free ↦ ground (arith, free, h.stored, still, eq_iff other k)
      | inr (claim st at, held) ↦ ground (arith, held, h.stored, still)
      | inr (unreadable, held) ↦ ground (arith, held)
    ]
  where
    still : unexpired (s.active k) now (some (claim h.state h.at)) ≡ some (claim h.state h.at)
    still = kept (s.active k) since now h.state h.at h.recent lt

deliver-other :
    (k other : String) (o : Course) (s : Claims)
    → key_is other k ≡ false
    → (deliver other o s).1.stored k ≡ s.stored k
unfolding deliver finish_send
deliver-other k other o s apart = elim (Delivery-cases o.delivery) [
  | inl (inl e) ↦ ground (arith, apart, e)
  | inl (inr e) ↦ ground (arith, apart, e)
  | inr e ↦ ground (arith, apart, e)
]

-- A message that may have reached the server keeps its claim.
deliver-Stands :
    (k : String) (since : ℕ) (o : Course) (s : Claims)
    → Stands k since s
    → since ≤ o.accepted_at
    → since ≤ o.finished_at
    → (deliver k o s).0.1 ≡ true
    → Stands k since (deliver k o s).1
unfolding deliver finish_send
deliver-Stands k since o s h le le' handed = elim (Delivery-cases o.delivery) [
  | inl (inl e) ↦ elim (Bool-cases o.result_recorded) [
    | inl r ↦ record {
      state = if clean o then send_complete else send_partial;
      at = o.finished_at;
      stored = ground (arith, e, r, handed, eq_refl k);
      recent = le';
    }
    | inr r ↦ elim (Bool-cases o.acceptance_recorded) [
      | inl a ↦ record {
        state = send_accepted;
        at = o.accepted_at;
        stored = ground (arith, e, r, a, handed, eq_refl k);
        recent = le;
      }
      | inr a ↦ record {
        state = h.state;
        at = h.at;
        stored = ground (arith, e, r, a, handed, h.stored);
        recent = h.recent;
      }
    ]
  ]
  | inl (inr e) ↦ record {
    state = h.state;
    at = h.at;
    stored = ground (arith, e, handed, h.stored);
    recent = h.recent;
  }
  | inr e ↦ absurd (ground (arith, e, handed))
]

claim_send-held :
    (taken : Bool) (k : String) (since now : ℕ) (s : Claims)
    → Stands k since s
    → now < since + send_claim_keep
    → ((claim_send taken k now s).0 ≡ err tt)
      ⊎ ((st : ℕ) × ((claim_send taken k now s).0 ≡ ok (st, false)))
unfolding claim_send
claim_send-held true k since now s h lt = inr (claim_in-Stands k since now s h lt)
claim_send-held false k since now s h lt = inl refl

claim_send-stored :
    (taken : Bool) (k other : String) (since now : ℕ) (s : Claims)
    → Stands k since s
    → now < since + send_claim_keep
    → (claim_send taken other now s).1.stored k ≡ s.stored k
unfolding claim_send
claim_send-stored true k other since now s h lt = claim_in-stored k other since now s h lt
claim_send-stored false k other since now s h lt = refl

submit-Stands :
    (k other : String) (since : ℕ) (o : Course) (s : Claims)
    → Stands k since s
    → o.claimed < since + send_claim_keep
    → Stands k since (submit other o s).1
unfolding submit end_send
submit-Stands k other since o s h lt = record {
  state = h.state;
  at = h.at;
  stored = same ∙ h.stored;
  recent = h.recent;
}
  where
    claimed : (claim_send o.claim_taken other o.claimed s).1.stored k ≡ s.stored k
    claimed = claim_send-stored o.claim_taken k other since o.claimed s h lt

    same : (submit other o s).1.stored k ≡ s.stored k
    same = elim (Bool-cases (key_is other k)) [
      | inl here ↦
          let it : other ≡ k = (eq_iff other k).0 here in
          let moved = ap (λ x. (claim_send o.claim_taken x o.claimed s).0) it in
          elim (claim_send-held o.claim_taken k since o.claimed s h lt) [
            | inl e ↦
                let e' : (claim_send o.claim_taken other o.claimed s).0 ≡ err tt = moved ∙ e in
                ground (arith, e', claimed)
            | inr (st, e) ↦
                let e' : (claim_send o.claim_taken other o.claimed s).0 ≡ ok (st, false) =
                  moved ∙ e in
                ground (arith, e', claimed)
          ]
      | inr apart ↦ ground (
        arith,
        claimed,
        deliver-other k other o (claim_send o.claim_taken other o.claimed s).1 apart,
      )
    ]

submit-held :
    (k : String) (since : ℕ) (o : Course) (s : Claims)
    → Stands k since s
    → o.claimed < since + send_claim_keep
    → (submit k o s).0.1 ≡ false
unfolding submit
submit-held k since o s h lt = elim (claim_send-held o.claim_taken k since o.claimed s h lt) [
  | inl e ↦ ground (arith, e)
  | inr (st, e) ↦ ground (arith, e)
]

claim_in-new :
    (k : String) (now : ℕ) (s : Claims) {st : ℕ}
    → (claim_in k now s).0 ≡ ok (st, true)
    → Stands k now (claim_in k now s).1
unfolding claim_in
claim_in-new k now s e = elim (Option-cases (unexpired (s.active k) now (s.stored k))) [
  | inl free ↦ record {
    state = send_claiming;
    at = now;
    stored = ground (arith, free, eq_refl k);
    recent = ground arith;
  }
  | inr (claim st at, held) ↦ absurd (ground (arith, held, e))
  | inr (unreadable, held) ↦ absurd (ground (arith, held, e))
]

claim_send-new :
    (taken : Bool) (k : String) (now : ℕ) (s : Claims) {st : ℕ}
    → (claim_send taken k now s).0 ≡ ok (st, true)
    → Stands k now (claim_send taken k now s).1
unfolding claim_send
claim_send-new true k now s e = claim_in-new k now s e
claim_send-new false k now s e = absurd cc

submit-handed :
    (k : String) (o : Course) (s : Claims)
    → o.claimed ≤ o.accepted_at
    → o.claimed ≤ o.finished_at
    → (submit k o s).0.1 ≡ true
    → Stands k o.claimed (submit k o s).1
unfolding submit end_send
submit-handed k o s le le' handed = elim (Result-cases (claim_send o.claim_taken k o.claimed s).0) [
  | inl (e, p) ↦ absurd (ground (arith, p, handed))
  | inr ((st, false), p) ↦ absurd (ground (arith, p, handed))
  | inr ((st, true), p) ↦
      let d =
        deliver-Stands k o.claimed o (claim_send o.claim_taken k o.claimed s).1
          (claim_send-new o.claim_taken k o.claimed s p) le le' (ground (arith, p, handed)) in
      record { state = d.state; at = d.at; stored = ground (arith, p, d.stored); recent = d.recent }
]

-- The claims after submissions, one after another, and how many of them may have handed over the
-- message of a key.
unfoldable pub after_submits : List (String × Course) → Claims → Claims
after_submits [] s = s
after_submits ((k, o) ∷ rest) s = after_submits rest (submit k o s).1

unfoldable pub handed_over : String → List (String × Course) → Claims → ℕ
handed_over k [] s = 0
handed_over k ((other, o) ∷ rest) s =
    (if key_is other k && (submit other o s).0.1 then 1 else 0)
    + handed_over k rest (submit other o s).1

-- The submission is made within the window that begins at `since`, and its times are in order.
pub record IsWithin (since : ℕ) (sub : String × Course) : Type 0 where
  pub begins : since ≤ sub.1.claimed
  pub ends : sub.1.claimed < since + send_claim_keep
  pub then_accepted : sub.1.claimed ≤ sub.1.accepted_at
  pub then_finished : sub.1.claimed ≤ sub.1.finished_at

none_over :
    (k : String) (since now : ℕ) (subs : List (String × Course)) (s : Claims)
    → since ≤ now
    → Stands k now s
    → All (IsWithin since) subs
    → handed_over k subs s ≡ 0
unfolding handed_over
none_over k since now [] s le h w = refl
none_over k since now ((other, o) ∷ rest) s le h (i, w) =
    let lt : o.claimed < now + send_claim_keep = omega (arith, i.ends, le) in
    let later =
      none_over k since now rest (submit other o s).1 le (submit-Stands k other now o s h lt) w in
    elim (Bool-cases (key_is other k)) [
      | inl here ↦
          let it : other ≡ k = (eq_iff other k).0 here in
          let held : (submit other o s).0.1 ≡ false =
            ap (λ x. (submit x o s).0.1) it ∙ submit-held k now o s h lt in
          ground (arith, held, later)
      | inr apart ↦ ground (arith, apart, later)
    ]

-- A message is handed to the mail server once: of any submissions one after another whose claims
-- are made within `sendClaimKeep` of a moment, none accepted or finished before its claim, for any
-- messages, from any claims, and whichever of their records, deliveries and follow-ups fail, at most
-- one of one message may have reached the server.
pub at_most_once :
    (k : String) (since : ℕ) (subs : List (String × Course)) (s : Claims)
    → All (IsWithin since) subs
    → handed_over k subs s ≤ 1
unfolding handed_over
at_most_once k since [] s w = omega arith
at_most_once k since ((other, o) ∷ rest) s (i, w) =
    let later = at_most_once k since rest (submit other o s).1 w in
    elim (Bool-cases (key_is other k)) [
      | inr apart ↦ ground (arith, apart, later)
      | inl here ↦ elim (Bool-cases (submit other o s).0.1) [
        | inr not_handed ↦ ground (arith, not_handed, later)
        | inl handed ↦
            let it : other ≡ k = (eq_iff other k).0 here in
            let stands =
              subst (λ x. Stands x o.claimed (submit other o s).1) it
                (submit-handed other o s i.then_accepted i.then_finished handed) in
            let none_later =
              none_over k since o.claimed rest (submit other o s).1 i.begins stands w in
            omega (arith, none_later, one_at_most (key_is other k && (submit other o s).0.1))
      ]
    ]
  where
    one_at_most : (b : Bool) → (if b then 1 else 0) ≤ 1
    one_at_most true = omega arith
    one_at_most false = omega arith
