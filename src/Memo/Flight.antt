-- ===== src/Memo/Flight.antt =====
-- At most one load runs for an entry, and a load is known to the entry that it is for.
use alborz.Prelude.{
  ℕ, ◌+◌, ◌≤◌, ◌<◌, String, Bool, true, false, List, [], ◌∷◌, ◌++◌, Result, ok, err, ◌≡◌, refl, sym,
  ap, ◌∙◌, subst, arith, ◌==◌, if◌then◌else◌, eq_refl,
}
use alborz.Memo.{
  Memo, MemoEntry, start, get_pass, warm, settle, get_done, background_done, forget, update, retry,
  stale, new_entry, entry, put, backed_off,
}
use alborz.Memo.System.{
  Load, System, running_at, begun, passed, ended, Step, finds, gets, warms, ends, puts, updates,
  forgets, retries, stales, Reach, fresh, later,
}

abbrev pub one_if : Bool → ℕ
one_if true = 1
one_if false = 0

running_at-middle :
    (a : ℕ) (before after : List Load) (l : Load)
    → running_at a (before ++ l ∷ after)
      ≡ (if l.address == a then 1 else 0) + running_at a (before ++ after)
running_at-middle a [] after l = refl
running_at-middle a (b ∷ before) after l = omega (arith, running_at-middle a before after l)

module _ {ℓ} {T : Type ℓ} where
  -- An entry is loading exactly when one load runs for it; addresses yet to be given have none.
  pub record Flight (m : Memo T) (running : List Load) : Type ℓ where
    pub single : (a : ℕ) → running_at a running ≡ one_if (m.heap a).loading
    pub idle : (a : ℕ) → m.next ≤ a → (m.heap a).loading ≡ false

  -- A change that starts and ends no load.
  record Quiet (m m' : Memo T) : Type ℓ where
    pub loading : (a : ℕ) → (m'.heap a).loading ≡ (m.heap a).loading
    pub next : m.next ≤ m'.next

  Quiet-Flight : {m m' : Memo T} {ls : List Load} → Quiet m m' → Flight m ls → Flight m' ls
  Quiet-Flight q f = record {
    single = λ a. f.single a ∙ ap one_if (sym (q.loading a));
    idle = λ a le. q.loading a ∙ f.idle a (omega (arith, q.next, le));
  }

  -- `start` and the first load of `Get`.
  start-Flight :
      (a now : ℕ) (m : Memo T) (ls : List Load)
      → a < m.next
      → Flight m ls
      → Flight (start a now m).1 (begun a (start a now m).0 ls)
  unfolding start
  start-Flight a now m ls lt f = record {
    single = λ b. ground (arith, f.single b, f.single a);
    idle = λ b le. ground (arith, f.idle b, lt, le);
  }

  get_pass-Flight :
      (a now : ℕ) (m : Memo T) (ls : List Load)
      → a < m.next
      → Flight m ls
      → Flight (get_pass a now m).1 (passed a (get_pass a now m).0 ls)
  unfolding get_pass start
  get_pass-Flight a now m ls lt f = record {
    single = λ b. ground (arith, f.single b, f.single a);
    idle = λ b le. ground (arith, f.idle b, lt, le);
  }

  warm-Flight :
      (a now : ℕ) (m : Memo T) (ls : List Load)
      → a < m.next
      → Flight m ls
      → Flight (warm a now m).1 (begun a (warm a now m).0.1 ls)
  unfolding warm start
  warm-Flight a now m ls lt f = record {
    single = λ b. ground (arith, f.single b, f.single a);
    idle = λ b le. ground (arith, f.idle b, lt, le);
  }

  settle-loading :
      (version now : ℕ) (r : Result (Unit {0}) T) (e : MemoEntry T)
      → (settle version r now e).loading ≡ false
  unfolding settle
  settle-loading version now (ok val) e = ground arith
  settle-loading version now (err f) e = refl

  -- Other entries stay as they are when a load ends.
  ended-loading :
      (l : Load) (r : Result (Unit {0}) T) (now : ℕ) (m : Memo T) (b : ℕ)
      → ((ended l r now m).heap b).loading ≡ (if l.address == b then false else (m.heap b).loading)
  unfolding get_done background_done
  ended-loading l r now m b = ground (
    arith,
    settle-loading l.version now r (m.heap l.address),
    settle-loading l.version now r (backed_off r now (m.heap l.address)),
  )

  ended-next :
      (l : Load) (r : Result (Unit {0}) T) (now : ℕ) (m : Memo T) → (ended l r now m).next ≡ m.next
  unfolding get_done background_done
  ended-next l r now m = ground arith

  ended-Flight :
      (l : Load) (r : Result (Unit {0}) T) (now : ℕ) (m : Memo T) (before after : List Load)
      → Flight m (before ++ l ∷ after)
      → Flight (ended l r now m) (before ++ after)
  ended-Flight l r now m before after f = record {
    single = λ b.
        ground (arith, f.single b, running_at-middle b before after l, ended-loading l r now m b);
    idle = λ b le.
        ground
          (arith, f.idle b (omega (arith, le, ended-next l r now m)), ended-loading l r now m b);
  }

  update-Quiet : (user : String) (f : T → T) (m : Memo T) → Quiet m (update user f m)
  unfolding update
  update-Quiet user f m = record { loading = λ a. ground arith; next = ground arith }

  retry-Quiet : (user : String) (now : ℕ) (m : Memo T) → Quiet m (retry user now m)
  unfolding retry
  retry-Quiet user now m = record { loading = λ a. ground arith; next = ground arith }

  stale-Quiet : (user : String) (now : ℕ) (m : Memo T) → Quiet m (stale user now m)
  unfolding stale
  stale-Quiet user now m = record { loading = λ a. ground arith; next = ground arith }

  forget-Quiet : (user : String) (m : Memo T) → Quiet m (forget user m)
  unfolding forget
  forget-Quiet user m = record { loading = λ a. refl; next = ground arith }

  module _ (zero : T) where
    entry-Flight :
        (user : String) (m : Memo T) (ls : List Load)
        → Flight m ls
        → Flight (entry zero user m).1 ls
    unfolding entry
    entry-Flight user m ls f = record {
      single = λ a. ground (arith, f.single a, f.idle m.next (omega arith));
      idle = λ a le. ground (arith, f.idle a, le);
    }

    put-Flight :
        (user : String) (val : T) (now : ℕ) (m : Memo T) (ls : List Load)
        → Flight m ls
        → Flight (put zero user val now m) ls
    unfolding put
    put-Flight user val now m ls f =
        let g = entry-Flight user m ls f in
        record {
          single = λ a. ground (arith, f.single a, g.single a);
          idle = λ a le. ground (arith, f.idle a, g.idle a, le);
        }

    Step-Flight :
        {s s' : System T} → Step zero s s' → Flight s.memo s.running → Flight s'.memo s'.running
    Step-Flight {s} (finds user) f = entry-Flight user s.memo s.running f
    Step-Flight {s} (gets a now lt) f = get_pass-Flight a now s.memo s.running lt f
    Step-Flight {s} (warms a now lt) f = warm-Flight a now s.memo s.running lt f
    Step-Flight {s} (ends before after l r now e) f =
        ended-Flight l r now s.memo before after (subst (Flight s.memo) e f)
    Step-Flight {s} (puts user val now) f = put-Flight user val now s.memo s.running f
    Step-Flight {s} (updates user g) f = Quiet-Flight (update-Quiet user g s.memo) f
    Step-Flight {s} (forgets user) f = Quiet-Flight (forget-Quiet user s.memo) f
    Step-Flight {s} (retries user now) f = Quiet-Flight (retry-Quiet user now s.memo) f
    Step-Flight {s} (stales user now) f = Quiet-Flight (stale-Quiet user now s.memo) f

    Reach-Flight :
        {ttl : ℕ} {background : Bool} {s : System T}
        → Reach zero ttl background s
        → Flight s.memo s.running
    Reach-Flight fresh = record { single = λ a. refl; idle = λ a le. refl }
    Reach-Flight (later r step) = Step-Flight step (Reach-Flight r)

    -- Loads are shared: in every reachable state one load runs for an entry that is loading, and
    -- none for any other, so never two for one entry.
    pub single_flight :
        {ttl : ℕ} {background : Bool} {s : System T} (a : ℕ)
        → Reach zero ttl background s
        → running_at a s.running ≡ one_if (s.memo.heap a).loading
    single_flight a r = (Reach-Flight r).single a

    -- `Forget` cuts off the loads that run: in every reachable state, the entry that the user gets
    -- after it is a new and empty one, and no load that was begun before is for it.
    pub entry-forget :
        {ttl : ℕ} {background : Bool} {s : System T} (user : String)
        → Reach zero ttl background s
        → (let found = entry zero user (forget user s.memo) in
            (found.1.heap found.0 ≡ new_entry zero) × (running_at found.0 s.running ≡ 0))
    unfolding entry forget
    entry-forget {s = s} user r =
        let f = Reach-Flight r in
        ground (arith, f.single s.memo.next, f.idle s.memo.next (omega arith), eq_refl user)
