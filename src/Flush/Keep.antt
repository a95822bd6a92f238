-- ===== src/Flush/Keep.antt =====
-- What becomes of a batch (agent/flush.go): it is accepted, or on disk, or still counted.
use kerneleye.Base.{
  ◌≡◌, ◌%◌, ◌^◌, if◌then◌else◌, refl, true, Option, some, List, [], ◌∷◌, length, ◌==◌, ◌⊎◌,
}
use kerneleye.Base.Str.{Str}
use kerneleye.Proto.{ConnectionEvent, TrafficBatch}
use kerneleye.Float.{Float}
use kerneleye.AutoBlocker.{AutoBlocker}
use kerneleye.SafeStats.{SafeStats, IpStats, clear}
use kerneleye.Base.Dict.{Dict}
use kerneleye.Aggregator.{Aggregator, EventStats}
use kerneleye.Buffer.{Row, BufferDb, Codec, buffered_batch}
use kerneleye.Flush.Send.{
  accepts, deliver, Flusher, Flushed, flush_stats, read_counters, flushed_batch,
}

-- What package proto documents.
pub record CodecLaws (c : Codec) : Type 0 where
  pub unmarshal-marshal :
      (b : TrafficBatch) (s : Str) → c.marshal b ≡ some s → c.unmarshal s ≡ some b

-- Some row holds the batch.
abbrev pub Holds : Codec → TrafficBatch → List Row → Type 0
Holds c batch [] = ⊥
Holds c batch (r ∷ rows) = (c.unmarshal r.payload ≡ some batch) ⊎ Holds c batch rows

-- The event of an address: its counts, as uint32 and uint64, and its two ends by the direction.
pub record IsReport (ip : Str) (s : EventStats) (e : ConnectionEvent) : Type 0 where
  pub syns : e.syn_count ≡ s.syn_count % 2 ^ 32
  pub acks : e.ack_count ≡ s.ack_count % 2 ^ 32
  pub failures : e.failed_handshakes ≡ s.failed_handshakes % 2 ^ 32
  pub bytes : (e.bytes_in ≡ s.bytes_in) × (e.bytes_out ≡ s.bytes_out)
  pub process : e.process_name ≡ s.process_name
  pub source : e.source_ip ≡ (if s.direction == 0 then ip else s.local_ip)
  pub destination : e.destination_ip ≡ (if s.direction == 0 then s.local_ip else ip)

-- One event for each entry of the statistics, in order.
abbrev pub Reports : Dict (IpStats EventStats) → List ConnectionEvent → Type 0
Reports [] [] = Unit
Reports [] (e ∷ es) = ⊥
Reports (x ∷ m) [] = ⊥
Reports ((ip, s) ∷ m) (e ∷ es) = IsReport ip s.stats e × Reports m es

module _ (f : Float) (w : Flusher f) (a : Aggregator) where
  -- The statistics of which the snapshot is taken.
  abbrev pub at_snapshot : SafeStats EventStats
  at_snapshot = w.until_snapshot (record a.stats { items = read_counters w.counters a.stats.items })

  -- There was nothing to send, or the events report every entry of the snapshot, and: the statistics are
  -- what the events counted since the snapshot make of it, or the events were accepted in full, or a row
  -- of the buffer holds them.
  abbrev pub Kept : Flushed f → Type 0
  Kept r =
      ((a.stats.items ≡ []) × (r.stats ≡ a.stats))
      ⊎ (Reports at_snapshot.items r.events
          × ((r.stats ≡ w.until_sent at_snapshot)
              ⊎ (accepts (w.submit (flushed_batch w.api_key r.events)) (length r.events) ≡ true)
              ⊎ ((b : BufferDb) × (r.buffer ≡ some b)
                  × Holds w.disk.codec (buffered_batch w.api_key r.events) b.rows)))

  -- What is counted between the snapshot and the full acceptance of its batch is lost: whatever it was, the
  -- statistics are empty.
  pub flush_stats-forgets :
      (buffer : Option BufferDb) (ab : AutoBlocker f)
      → let r = flush_stats f w a buffer ab in
        accepts (w.submit (flushed_batch w.api_key r.events)) (length r.events) ≡ true
        → r.stats.items ≡ []
  unfolding flush_stats deliver clear
  flush_stats-forgets buffer ab sent = rw sent refl
