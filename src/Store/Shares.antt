-- ===== src/Store/Shares.antt =====
-- Sharing a collection, the invitee's answer, and the end of a share.
pub mod Run
pub mod Tests
pub mod Grants
pub mod Accept
pub mod Answers
use text.Mathlib.Text.{◌==◌}
use alborz.Prelude.{
  ℕ, String, Bool, true, false, List, [], ◌∷◌, Option, none, some, Result, if◌then◌else◌,
}
use alborz.Store.Types.{Ref, Collection, Share, StoreError, ref_of_share, not_found}
use alborz.Store.Keys.{Key}
use alborz.Store.Stored.{Stored, share_codec, ref_codec}
use alborz.Store.Env.{Env}
use alborz.Store.Tx.{
  M, Db, pure, fail, ◌>>=◌, ◌>>◌, get, get_raw, put, delete, on_keys, update, view, each,
}
use alborz.Store.Names.{scope_of, collection_key, share_key, received_key, all_shares}
use alborz.Store.Collections.{change}

-- What an answer makes of a share: yes makes it live, no is `declined` before and `left` after.
unfoldable pub answered : Share → Bool → ℕ → Share
answered sh accepts now =
    let dated : Share = record sh { answered = now } in
    if accepts
    then record dated { accepted = true; declined = false; left = false }
    else if sh.accepted
    then record dated { accepted = false; left = true }
    else record dated { declined = true }

module _ ⦃env : Env⦄ where
  -- A record must stand under the key; its value is not read.
  unfoldable pub must_hold : Key → M (Unit {0})
  must_hold k = do held ← get_raw k; elim held [ none ↦ fail not_found | some v ↦ pure tt ]

  abbrev pub addressed : Share → Share
  addressed sh = record sh { to = env.lower sh.to }

  unfoldable pub put_share_in : Share → M (Unit {0})
  unfolding must_hold
  put_share_in sh = do
    must_hold (collection_key (ref_of_share sh))
    put (share_key (ref_of_share sh) sh.to) sh
    on_keys (env.wrap_to (scope_of (ref_of_share sh)) (env.ring_name sh.to))
    put (received_key sh.to (ref_of_share sh)) (ref_of_share sh)

  -- `PutShare`.
  unfoldable pub put_share : Share → Db → Result StoreError (Unit {0} × List String) × Db
  unfolding change put_share_in
  put_share sh = update (change (ref_of_share sh) (put_share_in (addressed sh)))

  unfoldable pub answer_in : Ref → String → Bool → ℕ → M (Unit {0})
  unfolding answered
  answer_in ref to accepts now = do
    sh ← get {T = Share} (share_key ref to)
    put (share_key ref to) (answered sh accepts now)

  -- `Answer`.
  unfoldable pub answer :
      Ref → String → Bool → ℕ → Db → Result StoreError (Unit {0} × List String) × Db
  unfolding change answer_in
  answer ref to accepts now = update (change ref (answer_in ref to accepts now))

  unfoldable pub remove_share_in : Ref → String → M (Unit {0})
  unfolding must_hold
  remove_share_in ref to = do
    must_hold (share_key ref to)
    delete (received_key to ref)
    on_keys (env.unwrap_from (scope_of ref) (env.ring_name to))
    delete (share_key ref to)

  -- `RemoveShare`.
  unfoldable pub remove_share : Ref → String → Db → Result StoreError (Unit {0} × List String) × Db
  unfolding change remove_share_in
  remove_share ref to = update (change ref (remove_share_in ref to))

  -- `Share`.
  unfoldable pub share : Ref → String → Db → Result StoreError Share
  share ref to = view (get {T = Share} (share_key ref to))
