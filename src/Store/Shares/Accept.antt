-- ===== src/Store/Shares/Accept.antt =====
-- An invitation that is accepted grants what it says, and nothing else changes.
use alborz.Prelude.{
  ℕ, ◌<◌, String, true, List, none, some, ok, ◌≡◌, ◌≢◌, ◌⊎◌, refl, sym, ap, ◌∙◌, arith, eq_iff,
}
use alborz.Store.Types.{Ref, Collection, Share, ref_of_share, access_of, live}
use alborz.Store.Keys.{key_eq, key_eq_iff}
use alborz.Store.Stored.{Stored}
use alborz.Store.Rows.{lookup, lookup-insert}
use alborz.Store.Env.{Env}
use alborz.Store.Tx.{Db, view, get, find, get_raw, opened}
use alborz.Store.Names.{collection_key, share_key}
use alborz.Store.Access.{allowed, may}
use alborz.Store.Access.Sound.{IsLive-live}
use alborz.Store.Shares.{answered, addressed, put_share, answer}
use alborz.Store.Shares.Grants.{answer-Answers, put_share-Gives}

module _ ⦃env : Env⦄ where
  -- What `may` answers where a live share stands for another than the owner.
  may-live :
      (ref : Ref) (account : String) (now : ℕ) (db : Db) (c : Collection) (sh : Share)
      → env.opens (env.afresh db.held) (collection_key ref) ≡ none
      → env.opens (env.afresh db.held) (share_key ref account) ≡ none
      → lookup (collection_key ref) db.rows ≡ some (Stored.collection c)
      → c.owner ≢ account
      → lookup (share_key ref account) db.rows ≡ some (Stored.share sh)
      → live sh now ≡ true
      → may ref account now db ≡ ok (c, access_of sh)
  unfolding may view allowed get find get_raw opened
  may-live ref account now db c sh oc os hc other hs lives =
      ground (arith, oc, os, hc, hs, lives, eq_iff c.owner account)

  answered_yes :
      (sh : Share) (now later : ℕ)
      → (sh.expires ≡ 0) ⊎ (later < sh.expires)
      → (live (answered sh true now) later ≡ true)
        × (access_of (answered sh true now) ≡ access_of sh)
  unfolding answered access_of
  answered_yes sh now later unexpired = (
    IsLive-live (answered sh true now) later (record { accepted = refl; unexpired = unexpired }),
    refl,
  )

  -- An accepted invitation grants exactly what it says: after `PutShare` and the receiver's `Answer`
  -- of yes, both successful, the receiver, who is not the owner, is let in with the share's access
  -- at every time before the share runs out, provided the collection was there and the records open
  -- in a new transaction.
  pub may-answer_yes :
      (sh : Share) (now later : ℕ) (db : Db) {seen seen' : List String} {invited joined : Db}
      (c : Collection)
      → put_share sh db ≡ (ok (tt, seen), invited)
      → answer (ref_of_share sh) (env.lower sh.to) true now invited ≡ (ok (tt, seen'), joined)
      → lookup (collection_key (ref_of_share sh)) db.rows ≡ some (Stored.collection c)
      → c.owner ≢ env.lower sh.to
      → env.opens (env.afresh joined.held) (collection_key (ref_of_share sh)) ≡ none
      → env.opens (env.afresh joined.held) (share_key (ref_of_share sh) (env.lower sh.to)) ≡ none
      → (sh.expires ≡ 0) ⊎ (later < sh.expires)
      → may (ref_of_share sh) (env.lower sh.to) later joined ≡ ok (c, access_of sh)
  unfolding key_eq access_of
  may-answer_yes sh now later db {invited = invited} {joined} c put_ok answer_ok there other oc os
        unexpired =
      let ref = ref_of_share sh in
      let to = env.lower sh.to in
      let (u, gives, kept) = put_share-Gives sh db put_ok in
      let (v, answers, kept') = answer-Answers ref to true now invited answer_ok in
      let own_key = (key_eq_iff (share_key ref to) (share_key ref to)).1 refl in
      let given : lookup (share_key ref to) invited.rows ≡ some (Stored.share (addressed sh)) =
        rw (kept, gives.after, lookup-insert, lookup-insert, own_key) refl in
      let same : answers.share ≡ addressed sh = cc (sym answers.held ∙ given) in
      let (lives, access) = answered_yes (addressed sh) now later unexpired in
      let stored : lookup (share_key ref to) joined.rows
          ≡ some (Stored.share (answered (addressed sh) true now)) =
        rw (kept', answers.after, lookup-insert, own_key)
          (ap (λ x. some (Stored.share (answered x true now))) same) in
      let collection : lookup (collection_key ref) joined.rows ≡ some (Stored.collection c) =
        rw (kept', answers.after, lookup-insert, kept, gives.after, lookup-insert, lookup-insert)
          there in
      may-live ref to later joined c (answered (addressed sh) true now) oc os collection other
        stored lives
      ∙ ap (λ x. ok (c, x)) access
