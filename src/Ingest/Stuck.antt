-- ===== src/Ingest/Stuck.antt =====
-- The agent's retries (agent/flush.go) against the backend's `SubmitTraffic`: a batch that the backend does
-- not store whole.
use kerneleye.Base.{
  ℕ, zero, suc, ◌<◌, ◌≡◌, refl, false, Option, none, some, List, [], ◌∷◌, ◌++◌, length,
  length-append, ◌⊎◌, arith, Bool-cases, inl, inr, ◌∙◌, ap,
}
use kerneleye.Base.Str.{Str, str, str_eq}
use kerneleye.Float.{Float}
use kerneleye.Proto.{ConnectionEvent, TrafficBatch, Reply, replied, failed}
use kerneleye.ApiKey.{Server, Checked, valid, invalid, validate_api_key}
use kerneleye.Buffer.{BufferDb, PendingBatch, decode_rows}
use kerneleye.Flush.{is_fully_accepted}
use kerneleye.Flush.Send.{accepts, Disk, retry_pending_batches, retry_loop}
use kerneleye.Flush.Retry.{retry_pending-keeps_sent}
use kerneleye.Ingest.Submit.{
  Ingester, Answer, response, status, Code, ingest_event, accept_batch, submit_traffic,
  max_batch_size,
}
use kerneleye.Ingest.Accept.{submit_traffic-accepted_iff, ingest_events-short}

-- What package grpc makes of an answer for the client; `text` is `err.Error()`.
unfoldable pub to_reply : (Code → Str → Str) → Answer → Reply
to_reply text (response resp) = replied resp
to_reply text (status code msg) = failed (text code msg)

-- The backend as the agent calls it.
unfoldable pub backend :
    (f : Float) → Ingester f → (Code → Str → Str) → ℕ → TrafficBatch → Option Reply
unfolding to_reply submit_traffic
backend f h text i b = some (to_reply text (submit_traffic f h b).answer)

-- `n` retries, one after the other.
unfoldable pub retries : ℕ → Disk → (ℕ → TrafficBatch → Option Reply) → BufferDb → BufferDb
unfolding retry_pending_batches
retries zero d submit b = b
retries (suc n) d submit b = retries n d submit (retry_pending_batches d submit b)

module _ (f : Float) (h : Ingester f) (text : Code → Str → Str) where
  -- A batch that is not stored whole is not accepted.
  partly-refused :
      (i : ℕ) (b : TrafficBatch)
      → length (submit_traffic f h b).stored < length b.events
      → accepts (backend f h text i b) (length b.events) ≡ false
  unfolding accepts backend to_reply
  partly-refused i b short = answered (submit_traffic f h b).answer refl
    where
      answered :
          (a : Answer)
          → (submit_traffic f h b).answer ≡ a
          → accepts (some (to_reply text (submit_traffic f h b).answer)) (length b.events) ≡ false
      answered (status code msg) e = rw e refl
      answered (response resp) e =
          rw e (elim (Bool-cases (is_fully_accepted resp (length b.events))) [
            | inl full ↦
                absurd (omega (arith, (submit_traffic-accepted_iff f h b resp e).0 full, short))
            | inr part ↦ part
          ])

  oversized-short :
      (b : TrafficBatch)
      → max_batch_size < length b.events
      → length (submit_traffic f h b).stored < length b.events
  unfolding submit_traffic accept_batch
  oversized-short b over = checked (validate_api_key h.keys h.find b.api_key) refl
    where
      checked :
          (c : Checked)
          → validate_api_key h.keys h.find b.api_key ≡ c
          → length (submit_traffic f h b).stored < length b.events
      checked (invalid e) ec = ground (arith, ec, over)
      checked (valid server) ec = elim (Bool-cases (str_eq server.status (str "active"))) [
        | inl active ↦ ground (arith, ec, active, over)
        | inr idle ↦ ground (arith, ec, idle, over)
      ]

  unparsed-lost :
      (server : Server) (e : ConnectionEvent)
      → h.parse_addr e.source_ip ≡ none
      → ingest_event f h server e ≡ []
  unfolding ingest_event
  unparsed-lost server e bad = rw (bad, ingest_event) refl

  unparsed-short :
      (b : TrafficBatch) (before : List ConnectionEvent) (e : ConnectionEvent)
      (after : List ConnectionEvent)
      → b.events ≡ before ++ e ∷ after
      → h.parse_addr e.source_ip ≡ none
      → length (submit_traffic f h b).stored < length b.events
  unfolding submit_traffic accept_batch
  unparsed-short b before e after parts bad =
      checked (validate_api_key h.keys h.find b.api_key) refl
    where
      checked :
          (c : Checked)
          → validate_api_key h.keys h.find b.api_key ≡ c
          → length (submit_traffic f h b).stored < length b.events
      checked (invalid err) ec = ground (arith, ec, parts, length-append before (e ∷ after))
      checked (valid server) ec = ground (
        arith,
        ec,
        parts,
        length-append before (e ∷ after),
        ingest_events-short f h server before e after (unparsed-lost server e bad),
      )

  -- A batch that the backend never stores whole: it has more than ten thousand events, or an event whose
  -- source is no address.
  abbrev pub Unstorable : TrafficBatch → Type 0
  Unstorable b =
      (max_batch_size < length b.events)
      ⊎ ((before : List ConnectionEvent) × (e : ConnectionEvent) × (after : List ConnectionEvent)
          × (b.events ≡ before ++ e ∷ after)
          × (h.parse_addr e.source_ip ≡ none))

  Unstorable-short :
      (b : TrafficBatch) → Unstorable b → length (submit_traffic f h b).stored < length b.events
  Unstorable-short b (inl over) = oversized-short b over
  Unstorable-short b (inr (before, e, after, parts, bad)) =
      unparsed-short b before e after parts bad

  module _ (d : Disk) (b : BufferDb) (p : PendingBatch) (after : List PendingBatch) where
    -- Where the oldest batch that waits has more than ten thousand events or an event whose source is no
    -- address, no number of retries changes the buffer, and each of them submits that batch alone.
    pub retries-stuck :
        (n : ℕ)
        → decode_rows d.codec d.seconds b.rows ≡ p ∷ after
        → Unstorable p.batch
        → (retries n d (backend f h text) b ≡ b)
          × ((retry_loop (backend f h text) 0 (p ∷ after)).submitted ≡ p.id ∷ [])
    unfolding retries
    retries-stuck n e bad = (same n, q.1)
      where
        q :
            (retry_pending_batches d (backend f h text) b ≡ b)
            × ((retry_loop (backend f h text) 0 (p ∷ after)).submitted ≡ p.id ∷ [])
        q =
            retry_pending-keeps_sent (backend f h text) d b [] p after e tt
              (partly-refused 0 p.batch (Unstorable-short p.batch bad))

        same : (n : ℕ) → retries n d (backend f h text) b ≡ b
        same zero = refl
        same (suc n) = ap (retries n d (backend f h text)) q.0 ∙ same n
