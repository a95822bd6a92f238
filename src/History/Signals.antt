-- ===== src/History/Signals.antt =====
-- What the history says of an address while it is written.
use mathlib.Core.Path.{fun_ext}
use kerneleye.Base.{
  ℕ, ◌+◌, ◌-◌, ◌≤◌, ◌<◌, ◌≡◌, refl, Bool, true, false, some, List, [], ◌∷◌, keep, leb, arith, ap,
}
use kerneleye.Base.Str.{Str, str_eq_iff}
use kerneleye.Flush.Snapshot.{HistorySignals, with_signals}
use kerneleye.Float.{Float}
use kerneleye.Scoring.{IpMetrics, ThreatScore}
use kerneleye.History.{
  HistoryStore, Bucket, truncate, current_bucket, since_bucket, in_lookback, max_hits, signals_of,
  load_signals, merge, upsert, bucket_of, clean_up, persist_bucket,
}

module _ (h : HistoryStore) (ip : Str) (direction now : ℕ) where
  -- A row of the present bucket is outside every look-back window that ends now.
  keep-upsert :
      (n : Bucket) (rows : List Bucket)
      → n.bucket_start ≡ current_bucket h now
      → keep (in_lookback h ip direction now) (upsert n rows)
        ≡ keep (in_lookback h ip direction now) rows
  unfolding upsert merge in_lookback
  keep-upsert n [] e = ground (arith, e)
  keep-upsert n (r ∷ rows) e = ground (arith, e, keep-upsert n rows e)

  -- What the clean-up deletes is older than the window.
  keep-clean :
      (cutoff : ℕ) (rows : List Bucket)
      → cutoff ≤ since_bucket h now
      → keep (in_lookback h ip direction now) (keep (λ r. leb cutoff r.bucket_start) rows)
        ≡ keep (in_lookback h ip direction now) rows
  unfolding in_lookback
  keep-clean cutoff [] le = refl
  keep-clean cutoff (r ∷ rows) le = ground (arith, le, keep-clean cutoff rows le)

-- Durations as the constructor leaves them, the window of the clean-up behind that of the look-back.
pub record Sane (h : HistoryStore) : Type 0 where
  pub bucket : 0 < h.bucket_size
  pub window : h.lookback_window + h.bucket_size ≤ h.retention

cutoff-le-since :
    (h : HistoryStore) (now later : ℕ)
    → Sane h
    → now ≤ later
    → now - h.retention ≤ since_bucket h later
unfolding since_bucket truncate
cutoff-le-since h now later sane le = grind (arith, sane.bucket, sane.window)

module _ (h : HistoryStore) (sane : Sane h) (ip : Str) (direction : ℕ) where
  keep-persist :
      (cleans : Bool) (now later : ℕ) (n : Bucket)
      → now ≤ later
      → keep (in_lookback h ip direction later) (persist_bucket true cleans now h n).0.rows
        ≡ keep (in_lookback h ip direction later) (upsert n h.rows)
  unfolding persist_bucket clean_up
  keep-persist cleans now later n le = ground (
    arith,
    keep-clean h ip direction later (now - h.retention) (upsert n h.rows)
        (cutoff-le-since h now later sane le),
  )

  -- Writing a row does not move the window.
  in_lookback-persist :
      (inserts cleans : Bool) (now later : ℕ) (n : Bucket)
      → in_lookback (persist_bucket inserts cleans now h n).0 ip direction later
        ≡ in_lookback h ip direction later
  unfolding persist_bucket clean_up in_lookback current_bucket since_bucket
  in_lookback-persist inserts cleans now later n = fun_ext λ r. ground arith

  persist_refused :
      (cleans : Bool) (now : ℕ) (n : Bucket) → (persist_bucket false cleans now h n).0 ≡ h
  unfolding persist_bucket
  persist_refused cleans now n = refl

  signals-persist :
      (cleans : Bool) (now later : ℕ) (n : Bucket)
      → now ≤ later
      → load_signals true (persist_bucket true cleans now h n).0 ip direction later
        ≡ some (signals_of (keep (in_lookback h ip direction later) (upsert n h.rows)))
  unfolding load_signals
  signals-persist cleans now later n le =
      rw (in_lookback-persist true cleans now later n, keep-persist cleans now later n le) refl

  -- Where the retention is at least the look-back window and a bucket, as by default, writing a bucket at a
  -- time does not change what the history says of any address at that time: no
  -- flush is scored by what it has itself just written.
  pub persist-load_signals :
      (runs inserts cleans : Bool) (now : ℕ) (n : Bucket)
      → n.bucket_start ≡ current_bucket h now
      → load_signals runs (persist_bucket inserts cleans now h n).0 ip direction now
        ≡ load_signals runs h ip direction now
  unfolding load_signals
  persist-load_signals runs false cleans now n e =
      ap (λ (g : HistoryStore). load_signals runs g ip direction now) (persist_refused cleans now n)
  persist-load_signals runs true cleans now n e =
      rw
        (
          in_lookback-persist true cleans now now n,
          keep-persist cleans now now n (omega arith),
          keep-upsert h ip direction now n h.rows e,
        )
        refl

  hits-upsert :
      (later : ℕ) (n : Bucket) (rows : List Bucket)
      → in_lookback h ip direction later n ≡ true
      → n.max_port_hits ≤ max_hits (keep (in_lookback h ip direction later) (upsert n rows))
  unfolding upsert merge in_lookback max_hits
  hits-upsert later n [] inside = ground (arith, inside)
  hits-upsert later n (r ∷ rows) inside =
      ground (arith, inside, hits-upsert later n rows inside, str_eq_iff r.ip n.ip)

  -- The history's greatest number of hits is carried on: the bucket that a flush writes repeats it, so a
  -- later flush whose look-back has that bucket reads at least the same, however old the hits are.
  pub load_signals-carried :
      (f : Float) (cleans : Bool) (now later protocol : ℕ) (process : Str) (bytes : ℕ × ℕ)
      (s s' : HistorySignals) (m : IpMetrics f) (score : ThreatScore f)
      → now ≤ later
      → let n =
          bucket_of f h ip direction protocol process bytes (with_signals f (some s) m) score now in
        in_lookback h ip direction later n ≡ true
        → load_signals true (persist_bucket true cleans now h n).0 ip direction later ≡ some s'
        → s.max_port_hits ≤ s'.max_port_hits
  unfolding signals_of bucket_of with_signals
  load_signals-carried f cleans now later protocol process bytes s s' m score le inside read =
      ground (arith, read, signals-persist cleans now later n le, hits-upsert later n h.rows inside)
    where
      n : Bucket
      n = bucket_of f h ip direction protocol process bytes (with_signals f (some s) m) score now
