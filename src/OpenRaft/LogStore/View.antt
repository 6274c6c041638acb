-- ===== src/OpenRaft/LogStore/View.antt =====
-- What a database of the log store holds: its entries by index, and what reads as the last purged
-- log id, the committed log id and the vote.
use mathlib.Core.Option
use robustmq_geek.Prelude.{
  ℕ, ◌^◌, ◌<◌, ◌≡◌, ◌≢◌, ◌∙◌, refl, sym, ap, true, Option, none, some, Bytes, codes, err,
}
use robustmq_geek.Common.Errors.{Fault}
use robustmq_geek.External.Rocksdb.{Rocksdb, IsDatabase}
use robustmq_geek.External.Formats.{IsJson}
use robustmq_geek.External.OpenRaft.{LogId, Vote}
use robustmq_geek.OpenRaft.Types.{Entry}
use robustmq_geek.OpenRaft.Keys.{id_to_bin}
use robustmq_geek.OpenRaft.LogStore.{LogFormats, store, logs, parsed}

-- The formats write and read back; an optional log id is written as the log id is, and a missing one
-- as a text that is not one.
pub record AreLogFormats (F : LogFormats) : Type 0 where
  pub log_id : IsJson F.json_log_id
  pub committed : IsJson F.json_committed
  pub vote : IsJson F.json_vote
  pub entry : IsJson F.json_entry
  pub committed-some : (id : LogId) → committed.written (some id) ≡ log_id.written id
  pub committed-none : (e : Fault) × (F.json_log_id.from_slice (committed.written none) ≡ err e)

pub record LogView : Type 0 where
  pub log : ℕ → Option Entry
  pub purged : Option LogId
  pub committed : Option LogId
  pub vote : Option Vote

pub record Represents ⦃R : Rocksdb⦄ ⦃D : IsDatabase R⦄ ⦃F : LogFormats⦄ ⦃L : AreLogFormats F⦄
    (d : R.Db) (v : LogView) : Type 0 where
  pub fine : D.healthy d ≡ true
  pub found :
      (i : ℕ) → i < 2 ^ 64 → D.find d logs (id_to_bin i) ≡ Option.map L.entry.written (v.log i)
  pub keyed : (k : Bytes) → D.find d logs k ≢ none → (i : ℕ) × (i < 2 ^ 64) × (k ≡ id_to_bin i)
  pub own : (i : ℕ) (e : Entry) → v.log i ≡ some e → e.log_id.index ≡ i
  pub purged : parsed F.json_log_id (D.find d store (codes "last_purged_log_id")) ≡ v.purged
  pub committed : parsed F.json_log_id (D.find d store (codes "committed")) ≡ v.committed
  pub vote : parsed F.json_vote (D.find d store (codes "vote")) ≡ v.vote

map-some :
    {A B : Type 0} (f : A → B) (o : Option A) (b : B)
    → Option.map f o ≡ some b
    → (a : A) × (o ≡ some a) × (f a ≡ b)
map-some f none b p = cc
map-some f (some a) b p = (a, refl, cc)

pub some≢none : {A : Type 0} {a : A} → some a ≢ none
some≢none p = cc

module _ ⦃R : Rocksdb⦄ ⦃D : IsDatabase R⦄ ⦃F : LogFormats⦄ ⦃L : AreLogFormats F⦄ where
  -- A key that is found is that of an entry of the log.
  pub at-key :
      (d : R.Db) (v : LogView) (k json : Bytes)
      → Represents d v
      → D.find d logs k ≡ some json
      → (i : ℕ) × (i < 2 ^ 64)
        × (k ≡ id_to_bin i)
        × (e : Entry) × (v.log i ≡ some e)
        × (L.entry.written e ≡ json)
        × (e.log_id.index ≡ i)
  at-key d v k json rep p =
      let (i, h, q) = rep.keyed k λ n. some≢none (sym p ∙ n) in
      let (e, here, wrote) =
        map-some L.entry.written (v.log i) json
          (sym (rep.found i h) ∙ ap (D.find d logs) (sym q) ∙ p) in
      (i, h, q, e, here, wrote, rep.own i e here)
