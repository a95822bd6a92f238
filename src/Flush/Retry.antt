-- ===== src/Flush/Retry.antt =====
-- What a retry does to the batches that wait (agent/flush.go, `retryPendingBatches`).
use kerneleye.Base.{
  ℕ, suc, ◌+◌, ◌≡◌, true, false, Option, List, [], ◌∷◌, ◌++◌, map, length, arith, ◌⊎◌, inl, inr,
  Bool-cases,
}
use kerneleye.Proto.{TrafficBatch, Reply}
use kerneleye.Buffer.{BufferDb, PendingBatch, decode_rows, load_all}
use kerneleye.Flush.Send.{accepts, retry_loop, Disk, after_retry, retry_pending_batches}

-- Each batch was accepted in full, from call number `i` on.
abbrev pub AllAccepted : (ℕ → TrafficBatch → Option Reply) → ℕ → List PendingBatch → Type 0
AllAccepted submit i [] = Unit {0}
AllAccepted submit i (p ∷ ps) =
    (accepts (submit i p.batch) (length p.batch.events) ≡ true) × AllAccepted submit (i + 1) ps

abbrev pub ids : List PendingBatch → List ℕ
ids ps = map (λ p. p.id) ps

module _ (submit : ℕ → TrafficBatch → Option Reply) where
  pub retry_loop-complete :
      (i : ℕ) (ps : List PendingBatch)
      → (retry_loop submit i ps).complete ≡ true
      → AllAccepted submit i ps
  unfolding retry_loop
  retry_loop-complete i [] h = tt
  retry_loop-complete i (p ∷ ps) h =
      elim (Bool-cases (accepts (submit i p.batch) (length p.batch.events))) [
        | inl yes_sent ↦ (yes_sent, retry_loop-complete (i + 1) ps (ground (arith, yes_sent, h)))
        | inr refused ↦ absurd (ground (arith, refused, h))
      ]

  -- The loop stops at the first batch that is not accepted.
  pub retry_loop-stops :
      (i : ℕ) (before : List PendingBatch) (p : PendingBatch) (after : List PendingBatch)
      → AllAccepted submit i before
      → accepts (submit (i + length before) p.batch) (length p.batch.events) ≡ false
      → ((retry_loop submit i (before ++ p ∷ after)).complete ≡ false)
        × ((retry_loop submit i (before ++ p ∷ after)).submitted ≡ ids before ++ p.id ∷ [])
  unfolding retry_loop
  retry_loop-stops i [] p after all h =
      let e : i + 0 ≡ i = omega arith in let h' = (rw e at h) in ground (arith, h')
  retry_loop-stops i (q ∷ before) p after all h =
      let e : i + suc (length before) ≡ (i + 1) + length before = omega arith in
      let h' = (rw e at h) in
      ground (arith, all.0, retry_loop-stops (i + 1) before p after all.1 h')

  module _ (d : Disk) (b : BufferDb) where
    -- A retry changes the buffer only if every batch that could be read from it was accepted in full.
    pub retry_pending-all_or_nothing :
        (retry_pending_batches d submit b ≡ b)
        ⊎ AllAccepted submit 0 (decode_rows d.codec d.seconds b.rows)
    unfolding retry_pending_batches after_retry load_all
    retry_pending-all_or_nothing =
        elim (Bool-cases (retry_loop submit 0 (decode_rows d.codec d.seconds b.rows)).complete) [
          | inl done ↦ inr (retry_loop-complete 0 _ done)
          | inr stopped ↦ inl (ground (arith, stopped))
        ]

    -- When a batch is not accepted, nothing after it is submitted, and the batches before it, which the
    -- backend has accepted, are not deleted either: the next retry submits them again.
    pub retry_pending-keeps_sent :
        (before : List PendingBatch) (p : PendingBatch) (after : List PendingBatch)
        → decode_rows d.codec d.seconds b.rows ≡ before ++ p ∷ after
        → AllAccepted submit 0 before
        → accepts (submit (length before) p.batch) (length p.batch.events) ≡ false
        → (retry_pending_batches d submit b ≡ b)
          × ((retry_loop submit 0 (before ++ p ∷ after)).submitted ≡ ids before ++ p.id ∷ [])
    unfolding retry_pending_batches after_retry load_all
    retry_pending-keeps_sent before p after e all refused =
        let e0 : 0 + length before ≡ length before = omega arith in
        let q = retry_loop-stops 0 before p after all (rw e0 refused) in
        (ground (arith, e, q.0), q.1)
