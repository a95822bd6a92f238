-- ===== src/Buffer/Window.antt =====
-- The buffer against the history of all batches ever saved: a bounded queue.
use kerneleye.Base.{
  ℕ, zero, suc, ◌+◌, ◌-◌, ◌≤◌, ◌<◌, ◌≡◌, ◌≢◌, inl, inr, Option-cases, Bool-cases, drop_tail, refl,
  true, none, some, List, [], ◌∷◌, ◌++◌, All, length, drop, length-append, length-drop, drop-append,
  leb, arith,
}
use kerneleye.Base.Str.{Str}
use kerneleye.Proto.{ConnectionEvent}
use kerneleye.Buffer.{
  Row, BufferDb, Codec, Statements, buffer_max_batches, insert_row, make_room, new_row, store, save,
  buffered_batch,
}

length-insert_row : (r : Row) (rows : List Row) → length (insert_row r rows) ≡ suc (length rows)
unfolding insert_row
length-insert_row r [] = refl
length-insert_row r (s ∷ rows) = ground (arith, length-insert_row r rows)

length-make_room-le :
    (st : Statements) (rows : List Row)
    → st.counts ≡ true
    → st.evicts ≡ true
    → length (make_room st rows) < buffer_max_batches
unfolding make_room
length-make_room-le st rows c e =
    ground (arith, c, e, length-drop (length rows - buffer_max_batches + 1) rows)

length-store-le :
    (st : Statements) (now : ℕ) (b : BufferDb) (key payload : Str)
    → st.counts ≡ true
    → st.evicts ≡ true
    → length (store st now b key payload).0.rows ≤ buffer_max_batches
unfolding store
length-store-le st now b key payload c e = ground (
  arith,
  length-make_room-le st b.rows c e,
  length-insert_row (new_row b now key payload) (make_room st b.rows),
)

-- Where the batch can be encoded and the count and the eviction run, the buffer holds 500 batches at most
-- after a save, whatever it held before and whether or not the insertion fails.
pub save-bounded :
    (codec : Codec) (st : Statements) (now : ℕ) (b : BufferDb) (key : Str)
    (events : List ConnectionEvent)
    → codec.marshal (buffered_batch key events) ≢ none
    → st.counts ≡ true
    → st.evicts ≡ true
    → length (save codec st now b key events).0.rows ≤ buffer_max_batches
unfolding save
save-bounded codec st now b key events encodes c e =
    elim (Option-cases (codec.marshal (buffered_batch key events))) [
      | inl failed ↦ absurd (encodes failed)
      | inr (payload, e') ↦ ground (arith, e', length-store-le st now b key payload c e)
    ]

-- All statements run.
abbrev pub ideal : Statements
ideal = record { counts = true; evicts = true; insert_error = none }

-- A call of `Save`.
pub record Saving : Type 0 where
  pub now : ℕ
  pub key : Str
  pub events : List ConnectionEvent

unfoldable pub save_all : Codec → List Saving → BufferDb → BufferDb
save_all codec [] b = b
save_all codec (s ∷ l) b = save_all codec l (save codec ideal s.now b s.key s.events).0

-- Every row ever written, the oldest first, after those of `h`.
unfoldable pub history : Codec → List Saving → ℕ → List Row → List Row
history codec [] next h = h
history codec (s ∷ l) next h = elim (codec.marshal (buffered_batch s.key s.events)) [
  | none ↦ history codec l next h
  | some payload ↦
      history codec l (next + 1)
        (h ++ record { id = next; payload = payload; api_key = s.key; created_at = s.now } ∷ [])
]

-- The last 500 of a list.
unfoldable pub window : List Row → List Row
window h = drop (length h - buffer_max_batches) h

abbrev pub Before : ℕ → List Row → Type 0
Before now = All (λ r. r.created_at ≤ now)

-- The clock does not run backwards from `t` on.
abbrev pub ClockFrom : ℕ → List Saving → Type 0
ClockFrom t [] = Unit {0}
ClockFrom t (s ∷ l) = (t ≤ s.now) × ClockFrom s.now l

Before-drop : (now i : ℕ) (h : List Row) → Before now h → Before now (drop i h)
Before-drop now zero [] b = b
Before-drop now zero (r ∷ h) b = b
Before-drop now (suc i) [] b = b
Before-drop now (suc i) (r ∷ h) b = Before-drop now i h b.1

Before-mono : (t now : ℕ) (h : List Row) → t ≤ now → Before t h → Before now h
Before-mono t now [] le b = b
Before-mono t now (r ∷ h) le b = (omega (arith, b.0), Before-mono t now h le b.1)

Before-snoc : (h : List Row) (r : Row) → Before r.created_at h → Before r.created_at (h ++ r ∷ [])
Before-snoc [] r b = (omega arith, tt)
Before-snoc (s ∷ h) r b = (b.0, Before-snoc h r b.1)

insert_row-last :
    (r : Row) (rows : List Row) → Before r.created_at rows → insert_row r rows ≡ rows ++ r ∷ []
unfolding insert_row
insert_row-last r [] b = refl
insert_row-last r (s ∷ rows) b = ground (arith, b.0, insert_row-last r rows b.1)

window-snoc : (h : List Row) (r : Row) → window (h ++ r ∷ []) ≡ make_room ideal (window h) ++ r ∷ []
unfolding window make_room
window-snoc h r = ground (
  arith,
  length-append h (r ∷ []),
  length-drop (length h - buffer_max_batches) h,
  drop-append (suc (length h - buffer_max_batches)) h (r ∷ []),
  drop-append (length h - buffer_max_batches) h (r ∷ []),
  drop_tail (length h - buffer_max_batches) h,
)

Before-make_room : (now : ℕ) (rows : List Row) → Before now rows → Before now (make_room ideal rows)
unfolding make_room
Before-make_room now rows b = elim (Bool-cases (leb buffer_max_batches (length rows))) [
  | inl full ↦ rw full (Before-drop now _ rows b)
  | inr free ↦ rw free b
]

later : (t : ℕ) (s : Saving) (l : List Saving) → ClockFrom t (s ∷ l) → ClockFrom t l
later t s [] clock = tt
later t s (s' ∷ l) clock = (omega (arith, clock.0, clock.1.0), clock.1.1)

store-window :
    (now : ℕ) (b : BufferDb) (key payload : Str) (h : List Row)
    → b.rows ≡ window h
    → Before now h
    → (store ideal now b key payload).0.rows ≡ window (h ++ new_row b now key payload ∷ [])
unfolding store new_row window
store-window now b key payload h e before =
    rw (window-snoc, e)
      (insert_row-last (new_row b now key payload) (make_room ideal (window h)) (kept h before))
  where
    kept : (h : List Row) → Before now h → Before now (make_room ideal (window h))
    kept h before =
        Before-make_room now (window h) (Before-drop now (length h - buffer_max_batches) h before)

module _ (codec : Codec) (s : Saving) (l : List Saving) (b : BufferDb) (h : List Row) where
  save_all_skip :
      codec.marshal (buffered_batch s.key s.events) ≡ none
      → save_all codec (s ∷ l) b ≡ save_all codec l b
  unfolding save_all save
  save_all_skip e = rw (e, save) refl

  history_skip :
      codec.marshal (buffered_batch s.key s.events) ≡ none
      → history codec (s ∷ l) b.next_id h ≡ history codec l b.next_id h
  unfolding history
  history_skip e = rw (e, history) refl

  skipped :
      codec.marshal (buffered_batch s.key s.events) ≡ none
      → (save_all codec l b).rows ≡ window (history codec l b.next_id h)
      → (save_all codec (s ∷ l) b).rows ≡ window (history codec (s ∷ l) b.next_id h)
  skipped e ih = rw (save_all_skip e, history_skip e) ih

  module _ (payload : Str) (e : codec.marshal (buffered_batch s.key s.events) ≡ some payload) where
    save_all_step :
        save_all codec (s ∷ l) b ≡ save_all codec l (store ideal s.now b s.key payload).0
    unfolding save_all save
    save_all_step = rw (e, save) refl

    history_step :
        history codec (s ∷ l) b.next_id h
        ≡ history codec l (b.next_id + 1) (h ++ new_row b s.now s.key payload ∷ [])
    unfolding history new_row
    history_step = rw (e, history) refl

    stepped :
        (save_all codec l (store ideal s.now b s.key payload).0).rows
          ≡ window (
              history codec l
                (store ideal s.now b s.key payload).0.next_id
                (h ++ new_row b s.now s.key payload ∷ []))
        → (save_all codec (s ∷ l) b).rows ≡ window (history codec (s ∷ l) b.next_id h)
    unfolding store
    stepped ih = rw (save_all_step, history_step) ih

-- While every statement runs and the clock does not run backwards, the buffer is the last 500 of all
-- batches ever saved, in the order of the saves: what is evicted is always the oldest.
pub save_all-window :
    (codec : Codec) (l : List Saving) (t : ℕ) (b : BufferDb) (h : List Row)
    → ClockFrom t l
    → b.rows ≡ window h
    → Before t h
    → (save_all codec l b).rows ≡ window (history codec l b.next_id h)
unfolding save_all history new_row
save_all-window codec [] t b h clock e before = e
save_all-window codec (s ∷ l) t b h clock e before =
    elim (Option-cases (codec.marshal (buffered_batch s.key s.events))) [
      | inl failed ↦
          skipped codec s l b h failed (save_all-window codec l t b h (later t s l clock) e before)
      | inr (payload, coded) ↦ stepped codec s l b h payload coded (
          save_all-window codec l s.now (store ideal s.now b s.key payload).0
            (h ++ new_row b s.now s.key payload ∷ []) clock.1
            (store-window s.now b s.key payload h e (Before-mono t s.now h clock.0 before))
            (Before-snoc h (new_row b s.now s.key payload) (Before-mono t s.now h clock.0 before)))
    ]
