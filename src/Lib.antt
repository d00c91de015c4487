-- ===== src/Lib.antt =====
-- alborz is a self-hosted webmail, calendar and contacts server in Go. This library models parts of
-- it and proves what makes them correct.
--
-- Parts, and the file that models each:
--
-- - imap_queue.go: Queue. One IMAP connection is shared by many requests. `enter` is `acquire` up to
--   its wait, `withdraw` is what `acquire` does when its wait is cancelled, `release` is `release`.
--   Each is what runs under the mutex, so Queue.System interleaves them as steps of many callers: a
--   waiter's number stands for its address and its channel, and `owners` are the callers that were
--   given the connection and have not called `release`. A context or a `done` channel is the flag
--   that it has ended, at the moment it is asked. Any queued caller may be cancelled at any step, also
--   after it was granted.
-- - internal/record/record.go: Record. A stored JSON record is rewritten, keeping what a newer version
--   put there. `strip`, `graft` and `keep` are the functions of those names; the maps of Go are lists of
--   fields. encoding/json is the parameter `Coding`: bytes, the decoder and the encoder. Recursion is on
--   the JSON value.
-- - pim/store/store.go: Store. The calendars, task lists and address books that alborz keeps in its
--   own data file. Store.Types has the records, Store.Keys and Store.Names the keys, Store.Tx the
--   transaction: `get_raw`, `put_raw` and `scan` are those of pim/store/sealed.go, `find`, `get`,
--   `put` and `each` the functions of store.go over them. A function that the source passes to
--   `Update` or `View` is named `..._in`, and runs in the monad `M`: it is given the transaction,
--   and returns an error or a value and the transaction after it. `update` keeps what was written
--   only where no error came back. Store.Access is who may do what, Store.Collections and
--   Store.Removal are the writes to a collection, Store.Objects those to an object, Store.Shares
--   invitations and answers. Store.Feeds fills a calendar from its feed and Store.Seen is what an
--   account sees. Proofs are below the part that they are about; Store.Ctags is about both parts
--   that it joins. A key is a constructor that holds keyed names, not its text. The data file is a
--   list of keys and values, each key once, so a scan goes in no order that a theorem reads. The
--   JSON of a record is a constructor of `Stored`, and `record.Keep` is left out there: Record is
--   about it. The keys of collections (the rest of sealed.go, internal/keyring) and internal/seal
--   are the interface `Env`, with no law but the one that a theorem names. A value that does not
--   open ends an `Update` at once; the source remembers the error and returns it at the end, and
--   writes nothing either way. Times and the fresh name of a collection are arguments. An error of
--   the data file itself, and what is sorted for a page, are not modelled.
-- - mail/send_claim.go and Submit of mail/send.go: Send. A submission claims its message before it is
--   delivered. `claim_send`, `finish_send` and `end_send` are the functions of those names, `unexpired`
--   what kv.DeleteExpired leaves of one record, `submit` is `Submit` with what the servers and the data
--   file do given as a `Course`. A claim's key is the text that account and message make.
-- - internal/seal/seal.go: Seal. A sealed value is its format byte and a body. AES-GCM, the derivation of
--   keys and crypto/hpke are the interface `Crypto`, and `IsLawful` is what they promise. A wrap to a public
--   key that the ring has is taken to succeed: the error of hpke.Seal is not modelled.
-- - internal/keyring/keyring.go: Keyring, with the methods of the ring in Keyring.Ops. An account has
--   its own key while a login or a lease holds it, and a pair of keys to which collections' keys are
--   wrapped. A method is what runs under the ring's lock, and its time and the fresh pair are
--   arguments.
-- - pim/store/sealed.go: CollectionKeys. A collection whose owner's encryption is on has its own key, which
--   its record keeps wrapped to the accounts that may read it. The state is the transaction's: the
--   values and the records of keys of the data file, the ring of Keyring, and the keys held. A
--   key of the data file is the scope that `scopeOf` reads from it and its name; `rand.Read` is an
--   argument. CollectionKeys.Ops has `rekey`, `encrypt`, `decrypt`, the wraps, and `Reseal` for one
--   collection; CollectionKeys.Access has `Get`, `Scan`, `Put` and `Update`, whose callback is a
--   `Body`; the callback of a scan collects what it is given. An error of the data file or of
--   encoding/json in writing is not modelled.
-- - search/query.go: Search, with `Parse` and what is printed in Search.Parse. A text is its list of bytes.
--   `split_search_tokens` is `splitSearchTokens`; its loop, the scan for tokens and the loop of
--   `bareTerms` run on fuel for each byte of the text, which is enough since each turn passes one at
--   least; a loop without fuel left has an answer of its own. bufio.Scanner is taken to have the whole text, and strings.ToLower is a parameter.
-- - internal/memo/memo.go: Memo. One derived value per user. `get_pass` is one pass of the loop of `Get`
--   under the entry's lock, `start`, `settle` and the rest are the functions of those names; `get_done`
--   and `background_done` are what comes after a load. An entry is reached by an address, since a load
--   keeps the entry that it began from after `Forget`; Memo.System interleaves the callers. Times are
--   numbers of nanoseconds and 0 is the zero time; what is before the zero time is not modelled. A
--   version wraps at 2 ^ 64, and the theorem that reads one supposes fewer changes during a load.
-- Not modelled: the HTTP handlers and templates, IMAP, SMTP and DAV traffic, and the other packages. Go's maps are iterated in no order, and no theorem depends on one.
pub mod Prelude
pub mod CollectionKeys
pub mod Keyring
pub mod Memo
pub mod Queue
pub mod Record
pub mod Seal
pub mod Search
pub mod Send
pub mod Store
