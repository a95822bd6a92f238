-- ===== src/Aggregator/Reconnect.antt =====
-- agent/aggregator_connect.go: reconnection with exponential back-off. A Duration is an int64 of nanoseconds.
use kerneleye.Base.{
  ℕ, zero, suc, ◌+◌, ◌*◌, ◌%◌, ◌^◌, ◌≤◌, ◌<◌, ◌≡◌, refl, Bool, true, false, ◌&&◌, List, [], ◌∷◌,
  length, ◌++◌, if◌then◌else◌, ◌==◌, inl, inr, Bool-cases, arith,
}
use kerneleye.Base.Int.{ℤ, pos, ltb_ℤ, leb_ℤ, ◌≤ℤ◌}
use kerneleye.Base.Word.{wrap_i64}

-- `1 << n`, before it is cut to 64 bits.
unfoldable pub shl_one : ℕ → ℕ
shl_one zero = 1
shl_one (suc n) = 2 * shl_one n

abbrev pub second : ℕ
second = 1000000000

-- `5 * time.Minute`
abbrev pub max_reconnect_delay : ℤ
max_reconnect_delay = pos 300000000000

-- `time.Duration(1<<uint(count)) * time.Second`
unfoldable pub backoff : ℕ → ℤ
unfolding shl_one
backoff count = wrap_i64 (pos (shl_one count * second))

unfoldable pub reconnect_delay : ℕ → ℤ
unfolding backoff
reconnect_delay count =
    if ltb_ℤ max_reconnect_delay (backoff count) then max_reconnect_delay else backoff count

-- The fields under `reconnectMu`.
pub record Reconnection : Type 0 where
  pub count : ℕ
  pub reconnecting : Bool

-- A goroutine that waits for its delay.
pub record Attempt : Type 0 where
  pub number : ℕ
  pub delay : ℤ

-- `scheduleReconnect`: the goroutine that it starts, if any.
unfoldable pub schedule_reconnect : Reconnection → Reconnection × List Attempt
unfolding reconnect_delay
schedule_reconnect r = if r.reconnecting then (r, []) else (
  record { count = r.count + 1; reconnecting = true },
  record { number = r.count + 1; delay = reconnect_delay r.count } ∷ [],
)

-- `attemptReconnect`, by whether the connection and the test call succeed; on failure it schedules the next.
unfoldable pub attempt_reconnect : Bool → Reconnection → Reconnection × List Attempt
unfolding schedule_reconnect
attempt_reconnect true r = (record { count = 0; reconnecting = false }, [])
attempt_reconnect false r = schedule_reconnect (record r { reconnecting = false })

-- The goroutine when the agent stops.
unfoldable pub give_up : Reconnection → Reconnection
give_up r = record r { reconnecting = false }

pub data ConnectionState : Type 0 where
  idle connecting ready transient_failure shutdown : ConnectionState

-- `checkConnection`; `absent` is no connection.
pub data Connection : Type 0 where
  absent : Connection
  present : ConnectionState → Connection

unfoldable pub needs_reconnect : Connection → Bool
needs_reconnect absent = true
needs_reconnect (present transient_failure) = true
needs_reconnect (present shutdown) = true
needs_reconnect (present idle) = false
needs_reconnect (present connecting) = false
needs_reconnect (present ready) = false

unfoldable pub check_connection : Connection → Reconnection → Reconnection × List Attempt
unfolding schedule_reconnect needs_reconnect
check_connection c r = if needs_reconnect c then schedule_reconnect r else (r, [])

-- What can happen: a call that fails or a check schedules, and the goroutine that waits goes on.
pub data Step : Reconnection → List Attempt → Reconnection → List Attempt → Type 0 where
  schedules :
      (r : Reconnection) (waiting : List Attempt) {r' : Reconnection} {w' : List Attempt}
      → r' ≡ (schedule_reconnect r).0
      → w' ≡ (schedule_reconnect r).1 ++ waiting
      → Step r waiting r' w'
  attempts :
      (r : Reconnection) (a : Attempt) (waiting : List Attempt) (ok : Bool) {r' : Reconnection}
      {w' : List Attempt}
      → r' ≡ (attempt_reconnect ok r).0
      → w' ≡ (attempt_reconnect ok r).1 ++ waiting
      → Step r (a ∷ waiting) r' w'
  gives_up :
      (r : Reconnection) (a : Attempt) (waiting : List Attempt) {r' : Reconnection}
      → r' ≡ give_up r
      → Step r (a ∷ waiting) r' waiting

-- One goroutine waits while `reconnecting` is set, and none otherwise.
abbrev pub OneWaits : Reconnection → List Attempt → Type 0
OneWaits r waiting = length waiting ≡ (if r.reconnecting then 1 else 0)

-- However the calls, the checks and the attempts interleave, at most one reconnection is under way.
pub Step-OneWaits :
    {r r' : Reconnection} {waiting waiting' : List Attempt}
    → Step r waiting r' waiting'
    → OneWaits r waiting
    → OneWaits r' waiting'
unfolding schedule_reconnect attempt_reconnect give_up
Step-OneWaits (schedules r waiting er ew) one = rw (er, ew) (ground arith)
Step-OneWaits (attempts r a waiting true er ew) one = rw (er, ew) (ground arith)
Step-OneWaits (attempts r a waiting false er ew) one = rw (er, ew) (ground arith)
Step-OneWaits (gives_up r a waiting er) one = rw er (ground arith)

shl_one-add : (k : ℕ) → shl_one (55 + k) ≡ 2 ^ 55 * shl_one k
unfolding shl_one
shl_one-add zero = refl
shl_one-add (suc k) =
    let e : 55 + suc k ≡ suc (55 + k) = omega arith in rw e (omega (arith, shl_one-add k))

backoff_vanishes : (k : ℕ) → backoff (55 + k) ≡ pos 0
unfolding backoff wrap_i64
backoff_vanishes k =
    let e : shl_one (55 + k) * second % 2 ^ 64 ≡ 0 = omega (arith, shl_one-add k) in rw e refl

-- From the 55th failure in a row on the back-off overflows to nothing: the agent reconnects without any
-- pause.
pub reconnect_delay-overflows : (k : ℕ) → reconnect_delay (55 + k) ≡ pos 0
unfolding reconnect_delay
reconnect_delay-overflows k = rw (backoff_vanishes k) refl

-- Whether a delay lies between a second and five minutes.
in_bounds : ℕ → Bool
unfolding reconnect_delay
in_bounds n =
    leb_ℤ (pos second) (reconnect_delay n) && leb_ℤ (reconnect_delay n) max_reconnect_delay

-- Whether the first `m` delays are in bounds.
bounded_to : ℕ → Bool
bounded_to zero = true
bounded_to (suc m) = bounded_to m && in_bounds m

bounded_to_each : (m n : ℕ) → bounded_to m ≡ true → n < m → in_bounds n ≡ true
unfolding bounded_to
bounded_to_each (suc m) n all le = elim (Bool-cases (n == m)) [
  | inl last ↦ ground (arith, last, all)
  | inr early ↦ bounded_to_each m n (ground (arith, all)) (ground (arith, early, le))
]
bounded_to_each zero n all le = absurd (omega arith)

delays : bounded_to 34 ≡ true
unfolding bounded_to in_bounds reconnect_delay backoff wrap_i64 shl_one
delays = refl

in_bounds_sound :
    (n : ℕ)
    → in_bounds n ≡ true
    → (pos second ≤ℤ reconnect_delay n) × (reconnect_delay n ≤ℤ max_reconnect_delay)
unfolding in_bounds
in_bounds_sound n h = ground (arith, h)

-- Up to the 34th attempt in a row the delay lies between a second and five minutes.
pub reconnect_delay_bounds :
    (n : ℕ)
    → n ≤ 33
    → (pos second ≤ℤ reconnect_delay n) × (reconnect_delay n ≤ℤ max_reconnect_delay)
reconnect_delay_bounds n le = in_bounds_sound n (bounded_to_each 34 n delays (omega (arith, le)))
