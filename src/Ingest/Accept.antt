-- ===== src/Ingest/Accept.antt =====
-- What the answer to a batch says of what was stored, and what the agent makes of it (agent/flush.go).
use kerneleye.Base.{
  ◌≤◌, ◌<◌, ◌≡◌, refl, ◌↔◌, ◌≢◌, true, some, List, [], ◌∷◌, ◌++◌, length, length-append, ltb, arith,
  Bool-cases, inl, inr,
}
use kerneleye.Base.Str.{str, str_eq, str_eq_sound}
use kerneleye.Base.Int.{◌≤ℤ◌}
use kerneleye.Float.{Float}
use kerneleye.Scoring.{ThreatScore}
use kerneleye.Scoring.Score.{calculate_score}
use kerneleye.Proto.{ConnectionEvent, TrafficBatch, TrafficResponse}
use kerneleye.ApiKey.{Server, Checked, valid, invalid, validate_api_key}
use kerneleye.Flush.{is_fully_accepted}
use kerneleye.Ingest.{build_metrics_from_event, score_from_agent_event}
use kerneleye.Ingest.Submit.{
  Ingester, response, ingest_event, ingest_events, respond, accept_batch, submit_traffic, judged,
  max_batch_size,
}

module _ (f : Float) (h : Ingester f) (server : Server) where
  length-ingest_event-le : (e : ConnectionEvent) → length (ingest_event f h server e) ≤ 1
  unfolding ingest_event
  length-ingest_event-le e = ground arith

  pub length-ingest_events-le :
      (es : List ConnectionEvent) → length (ingest_events f h server es) ≤ length es
  unfolding ingest_events
  length-ingest_events-le [] = omega arith
  length-ingest_events-le (e ∷ es) = omega (
    arith,
    length-ingest_event-le e,
    length-ingest_events-le es,
    length-append (ingest_event f h server e) (ingest_events f h server es),
  )

  -- An event that is not stored leaves the batch short.
  pub ingest_events-short :
      (before : List ConnectionEvent) (e : ConnectionEvent) (after : List ConnectionEvent)
      → ingest_event f h server e ≡ []
      → length (ingest_events f h server (before ++ e ∷ after)) < length (before ++ e ∷ after)
  unfolding ingest_events
  ingest_events-short [] e after lost = rw lost (lift (length-ingest_events-le after))
    where
      lift :
          length (ingest_events f h server after) ≤ length after
          → length (ingest_events f h server after) < length (e ∷ after)
      lift le = omega (arith, le)
  ingest_events-short (b ∷ before) e after lost = omega (
    arith,
    length-ingest_event-le b,
    ingest_events-short before e after lost,
    length-append (ingest_event f h server b) (ingest_events f h server (before ++ e ∷ after)),
  )

-- The agent counts a response as full acceptance of a batch exactly if every event of it was stored.
pub submit_traffic-accepted_iff :
    (f : Float) (h : Ingester f) (b : TrafficBatch) (resp : TrafficResponse)
    → (submit_traffic f h b).answer ≡ response resp
    → (is_fully_accepted resp (length b.events) ≡ true)
      ↔ (length (submit_traffic f h b).stored ≡ length b.events)
unfolding submit_traffic accept_batch respond is_fully_accepted
submit_traffic-accepted_iff f h b resp r = checked (validate_api_key h.keys h.find b.api_key) refl
  where
    checked :
        (c : Checked)
        → validate_api_key h.keys h.find b.api_key ≡ c
        → (is_fully_accepted resp (length b.events) ≡ true)
          ↔ (length (submit_traffic f h b).stored ≡ length b.events)
    checked (invalid e) ec = absurd (ground (arith, ec, r))
    checked (valid server) ec = ground (arith, ec, r, length-ingest_events-le f h server b.events)

-- A batch is stored only for a server whose key is valid and that is active, and of a batch of more than
-- ten thousand events nothing is stored and the answer is an error.
pub submit_traffic-guarded :
    (f : Float) (h : Ingester f) (b : TrafficBatch)
    → (submit_traffic f h b).stored ≢ []
    → (server : Server) × (validate_api_key h.keys h.find b.api_key ≡ valid server)
      × (server.status ≡ str "active")
      × (length b.events ≤ max_batch_size)
unfolding submit_traffic accept_batch
submit_traffic-guarded f h b stored = checked (validate_api_key h.keys h.find b.api_key) refl
  where
    checked :
        (c : Checked)
        → validate_api_key h.keys h.find b.api_key ≡ c
        → (server : Server) × (validate_api_key h.keys h.find b.api_key ≡ valid server)
          × (server.status ≡ str "active")
          × (length b.events ≤ max_batch_size)
    checked (invalid e) ec = absurd (stored (ground (arith, ec)))
    checked (valid server) ec = elim (Bool-cases (str_eq server.status (str "active"))) [
      | inl active ↦ elim (Bool-cases (ltb max_batch_size (length b.events))) [
        | inl over ↦ absurd (stored (ground (arith, ec, active, over)))
        | inr fits ↦
            (server, ec, str_eq_sound server.status (str "active") active, ground (arith, fits))
      ]
      | inr idle ↦ absurd (stored (ground (arith, ec, idle)))
    ]

-- The score that is stored is at least the backend's own, and at least the one that the agent sent, where
-- it sent one.
pub judged-ge :
    (f : Float) (h : Ingester f) (e : ConnectionEvent)
    → (let own = calculate_score f h.scorer h.now (build_metrics_from_event f h.calendar h.now e) in
        own.score ≤ℤ (judged f h e).score)
      × ((agent : ThreatScore f)
          → score_from_agent_event f e ≡ some agent
          → agent.score ≤ℤ (judged f h e).score)
unfolding judged
judged-ge f h e = (ground arith, λ agent sent. ground (arith, sent))
