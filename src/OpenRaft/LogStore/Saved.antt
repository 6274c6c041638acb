-- ===== src/OpenRaft/LogStore/Saved.antt =====
-- The last purged log id, the committed log id and the vote: saving and reading them.
use robustmq_geek.Prelude.{
  ◌≡◌, ◌∙◌, refl, ap, true, false, Option, none, some, Bytes, Text, codes, Result, Action, ok,
  ok_of, done, eq_bytes, ◌&&◌, if◌then◌else◌,
}
use robustmq_geek.External.Rocksdb.{Rocksdb, IsDatabase}
use robustmq_geek.External.OpenRaft.{LogId, Vote, Wal, IsWal, Ranges, StorageError}
use robustmq_geek.OpenRaft.LogStore.{
  LogFormats, store, logs, parsed, flush, get_last_purged_, set_last_purged_, get_committed_,
  set_committed_, get_vote_, set_vote_, save_vote, read_vote, save_committed, read_committed,
}
use robustmq_geek.OpenRaft.LogStore.View.{AreLogFormats, LogView, Represents}

module _ ⦃R : Rocksdb⦄ ⦃D : IsDatabase R⦄ ⦃W : Wal R⦄ ⦃X : IsWal D W⦄ ⦃S : Ranges R⦄
    ⦃F : LogFormats⦄ ⦃L : AreLogFormats F⦄ where
  -- The three reads.
  pub get_last_purged__lem :
      (d : R.Db) (v : LogView) → Represents d v → get_last_purged_ d ≡ done (ok v.purged) d
  unfolding get_last_purged_
  get_last_purged__lem d v rep =
      rw (D.get-find d store (codes "last_purged_log_id") rep.fine)
        (ap (λ o. done (ok o) d) rep.purged)

  get_committed__lem :
      (d : R.Db) (v : LogView) → Represents d v → get_committed_ d ≡ done (ok v.committed) d
  unfolding get_committed_
  get_committed__lem d v rep =
      rw (D.get-find d store (codes "committed") rep.fine) (ap (λ o. done (ok o) d) rep.committed)

  get_vote__lem : (d : R.Db) (v : LogView) → Represents d v → get_vote_ d ≡ done (ok v.vote) d
  unfolding get_vote_
  get_vote__lem d v rep =
      rw (D.get-find d store (codes "vote") rep.fine) (ap (λ o. done (ok o) d) rep.vote)

  module _ (d : R.Db) (v : LogView) (rep : Represents d v) where
    abbrev putting : Text → Bytes → R.Db
    putting key json = (R.put_cf d store key json).1

    -- What a write under a key of the store leaves of the log.
    log-putting : (key : Text) (json k : Bytes) → D.find (putting key json) logs k ≡ D.find d logs k
    unfolding eq_bytes
    log-putting key json k = D.find-put d store key json logs k rep.fine

    kept-putting :
        (key : Text) (json j : Bytes)
        → eq_bytes j key ≡ false
        → D.find (putting key json) store j ≡ D.find d store j
    unfolding eq_bytes
    kept-putting key json j other = D.find-put d store key json store j rep.fine ∙ rw other refl

    new-putting :
        (key : Text) (json : Bytes)
        → eq_bytes key key ≡ true
        → D.find (putting key json) store key ≡ some json
    unfolding eq_bytes
    new-putting key json same = D.find-put d store key json store key rep.fine ∙ rw same refl

    putting-Represents :
        (key : Text) (json : Bytes) (p c : Option LogId) (x : Option Vote)
        → parsed F.json_log_id (D.find (putting key json) store (codes "last_purged_log_id")) ≡ p
        → parsed F.json_log_id (D.find (putting key json) store (codes "committed")) ≡ c
        → parsed F.json_vote (D.find (putting key json) store (codes "vote")) ≡ x
        → Represents (putting key json) (record v { purged = p; committed = c; vote = x })
    putting-Represents key json p c x hp hc hx = record {
      fine = D.put-healthy d store key json rep.fine;
      found = λ i h. log-putting key json _ ∙ rep.found i h;
      keyed = λ k h. rep.keyed k λ e. h (log-putting key json k ∙ e);
      own = rep.own;
      purged = hp;
      committed = hc;
      vote = hx;
    }

    abbrev Saves : Action R.Db (Result StorageError (Unit {0})) → LogView → Type 0
    Saves m v' = (d' : R.Db) × (m d ≡ done (ok tt) d') × Represents d' v'

    -- The database after a value is put under a key of the store, with all that it holds.
    abbrev SavesAs : Text → Bytes → Action R.Db (Result StorageError (Unit {0})) → LogView → Type 0
    SavesAs key json m v' =
        (d' : R.Db) × (m d ≡ done (ok tt) d')
        × Represents d' v'
        × ((cf : Text) (k : Bytes)
            → D.find d' cf k
              ≡ (if eq_bytes cf store && eq_bytes k key then some json else D.find d cf k))

    pub set_last_purged__lem :
        (id : LogId) → Saves (set_last_purged_ id) (record v { purged = some id })
    unfolding set_last_purged_ eq_bytes flush
    set_last_purged__lem id =
        let key = codes "last_purged_log_id" in
        let json = L.log_id.written id in
        (
          putting key json,
          rw
              (
                L.log_id.to_vec-written id,
                D.put-ok d store key json rep.fine,
                X.flush-ok (putting key json) (D.put-healthy d store key json rep.fine),
              )
              refl,
          putting-Represents key json (some id) v.committed v.vote
              (ap (parsed F.json_log_id) (new-putting key json refl)
                ∙ ap ok_of (L.log_id.from_slice-written id))
              (ap (parsed F.json_log_id) (kept-putting key json (codes "committed") refl)
                ∙ rep.committed)
              (ap (parsed F.json_vote) (kept-putting key json (codes "vote") refl) ∙ rep.vote),
        )

    set_vote__lem :
        (x : Vote)
        → SavesAs (codes "vote") (L.vote.written x) (set_vote_ x) (record v { vote = some x })
    unfolding set_vote_ eq_bytes flush
    set_vote__lem x =
        let key = codes "vote" in
        let json = L.vote.written x in
        (
          putting key json,
          rw
              (
                L.vote.to_vec-written x,
                D.put-ok d store key json rep.fine,
                X.flush-ok (putting key json) (D.put-healthy d store key json rep.fine),
              )
              refl,
          putting-Represents key json v.purged v.committed (some x)
              (ap (parsed F.json_log_id) (kept-putting key json (codes "last_purged_log_id") refl)
                ∙ rep.purged)
              (ap (parsed F.json_log_id) (kept-putting key json (codes "committed") refl)
                ∙ rep.committed)
              (ap (parsed F.json_vote) (new-putting key json refl)
                ∙ ap ok_of (L.vote.from_slice-written x)),
          λ cf k. D.find-put d store key json cf k rep.fine,
        )

    -- A missing log id is written as a text that does not parse as one, and so reads as missing.
    committed-parsed :
        (c : Option LogId) → ok_of (F.json_log_id.from_slice (L.committed.written c)) ≡ c
    committed-parsed (some id) =
        rw (L.committed-some id) (ap ok_of (L.log_id.from_slice-written id))
    committed-parsed none = ap ok_of L.committed-none.1

    set_committed__lem :
        (c : Option LogId)
        → SavesAs
            (codes "committed")
            (L.committed.written c)
            (set_committed_ c)
            (record v { committed = c })
    unfolding set_committed_ eq_bytes flush
    set_committed__lem c =
        let key = codes "committed" in
        let json = L.committed.written c in
        (
          putting key json,
          rw
              (
                L.committed.to_vec-written c,
                D.put-ok d store key json rep.fine,
                X.flush-ok (putting key json) (D.put-healthy d store key json rep.fine),
              )
              refl,
          putting-Represents key json v.purged c v.vote
              (ap (parsed F.json_log_id) (kept-putting key json (codes "last_purged_log_id") refl)
                ∙ rep.purged)
              (ap (parsed F.json_log_id) (new-putting key json refl) ∙ committed-parsed c)
              (ap (parsed F.json_vote) (kept-putting key json (codes "vote") refl) ∙ rep.vote),
          λ cf k. D.find-put d store key json cf k rep.fine,
        )

    -- On a database without I/O errors, a vote that is saved is what is read, and so is a committed
    -- log id, also a missing one. Of the log's view the other parts stay; and of the whole database,
    -- every column family and key but the one written, which holds the JSON text of the vote or of
    -- the log id.
    pub save-read :
        ((x : Vote)
          → (d' : R.Db) × (save_vote x d ≡ done (ok tt) d')
            × (read_vote d' ≡ done (ok (some x)) d')
            × (read_committed d' ≡ done (ok v.committed) d')
            × Represents d' (record v { vote = some x })
            × ((cf : Text) (k : Bytes)
                → D.find d' cf k ≡ (
                    if eq_bytes cf (codes "_raft_store") && eq_bytes k (codes "vote")
                    then some (L.vote.written x)
                    else D.find d cf k)))
        × ((c : Option LogId)
            → (d' : R.Db) × (save_committed c d ≡ done (ok tt) d')
              × (read_committed d' ≡ done (ok c) d')
              × (read_vote d' ≡ done (ok v.vote) d')
              × Represents d' (record v { committed = c })
              × ((cf : Text) (k : Bytes)
                  → D.find d' cf k ≡ (
                      if eq_bytes cf (codes "_raft_store") && eq_bytes k (codes "committed")
                      then some (L.committed.written c)
                      else D.find d cf k)))
    save-read = (
      λ x.
          let (d', p, r, f) = set_vote__lem x in
          (d', p, get_vote__lem d' _ r, get_committed__lem d' _ r, r, f),
      λ c.
          let (d', p, r, f) = set_committed__lem c in
          (d', p, get_committed__lem d' _ r, get_vote__lem d' _ r, r, f),
    )
