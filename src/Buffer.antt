-- ===== src/Buffer.antt =====
-- agent/buffer.go: the batches that wait in SQLite. The table is kept in the order of its index on
-- `created_at`, rows of one second in the order of their ids, which is what `ORDER BY created_at` reads.
pub mod Window
use kerneleye.Base.{
  ℕ, ◌+◌, ◌-◌, ◌*◌, Bool, true, false, not, ◌&&◌, ◌||◌, Option, none, some, List, [], ◌∷◌, ◌++◌,
  length, take, drop, keep, ltb, leb, ◌==◌, if◌then◌else◌,
}
use kerneleye.Base.Str.{Str, str, starts_with}
use kerneleye.Proto.{ConnectionEvent, TrafficBatch}

abbrev pub buffer_max_batches : ℕ
buffer_max_batches = 500

-- In seconds, as `CURRENT_TIMESTAMP` counts.
abbrev pub default_buffer_ttl : ℕ
default_buffer_ttl = 24 * 3600

-- A row of `pending_events`.
pub record Row : Type 0 where
  pub id : ℕ
  pub payload : Str
  pub api_key : Str
  pub created_at : ℕ

-- `next_id` is SQLite's AUTOINCREMENT counter.
pub record BufferDb : Type 0 where
  pub rows : List Row
  pub next_id : ℕ

-- `proto.Marshal` and `proto.Unmarshal`; `none` is an error.
pub record Codec : Type 0 where
  pub marshal : TrafficBatch → Option Str
  pub unmarshal : Str → Option TrafficBatch

-- How the statements of one call of `Save` end: whether the count and the eviction run, and the error of
-- the insertion.
pub record Statements : Type 0 where
  pub counts : Bool
  pub evicts : Bool
  pub insert_error : Option Str

pub data SaveError : Type 0 where
  marshal_failed disk_full write_failed : SaveError

-- The inner loop of `containsAny`: some position of `s` shows `sub`.
unfoldable pub occurs : Str → Str → Bool
occurs sub [] = starts_with sub []
occurs sub (c ∷ s) = starts_with sub (c ∷ s) || occurs sub s

unfoldable pub contains_any : Str → List Str → Bool
unfolding occurs
contains_any s [] = false
contains_any s (sub ∷ subs) = (ltb 0 (length sub) && occurs sub s) || contains_any s subs

unfoldable pub is_disk_full_error : Str → Bool
unfolding contains_any
is_disk_full_error msg =
    contains_any msg
      (str "disk" ∷ str "SQLITE_FULL" ∷ str "readonly" ∷ str "read-only" ∷ str "no space" ∷ [])

-- `INSERT`: the new row has the greatest id.
unfoldable pub insert_row : Row → List Row → List Row
insert_row r [] = r ∷ []
insert_row r (s ∷ rows) =
    if ltb r.created_at s.created_at then r ∷ s ∷ rows else s ∷ insert_row r rows

-- The rows that stay when `Save` evicts the oldest ones at capacity.
unfoldable pub make_room : Statements → List Row → List Row
make_room st rows =
    if st.counts && leb buffer_max_batches (length rows) && st.evicts
    then drop (length rows - buffer_max_batches + 1) rows
    else rows

unfoldable pub new_row : BufferDb → ℕ → Str → Str → Row
new_row b now key payload = record {
  id = b.next_id;
  payload = payload;
  api_key = key;
  created_at = now;
}

unfoldable pub store : Statements → ℕ → BufferDb → Str → Str → BufferDb × Option SaveError
unfolding make_room insert_row new_row is_disk_full_error
store st now b key payload =
    let room = make_room st b.rows in
    elim st.insert_error [
      | none ↦ (
        record { rows = insert_row (new_row b now key payload) room; next_id = b.next_id + 1 },
        none,
      )
      | some msg ↦ (
        record b { rows = room },
        some (if is_disk_full_error msg then disk_full else write_failed),
      )
    ]

abbrev pub buffered_batch : Str → List ConnectionEvent → TrafficBatch
buffered_batch key events = record {
  api_key = key;
  events = events;
  total_events = 0;
  aggregation_window_seconds = 0;
}

unfoldable pub save :
    Codec → Statements → ℕ → BufferDb → Str → List ConnectionEvent → BufferDb × Option SaveError
unfolding store
save codec st now b key events = elim (codec.marshal (buffered_batch key events)) [
  | none ↦ (b, some marshal_failed)
  | some payload ↦ store st now b key payload
]

pub record PendingBatch : Type 0 where
  pub id : ℕ
  pub batch : TrafficBatch
  pub age : ℕ

-- The loop of `LoadAll`; a row that cannot be decoded is passed over.
unfoldable pub decode_rows : Codec → ℕ → List Row → List PendingBatch
decode_rows codec now [] = []
decode_rows codec now (r ∷ rows) = elim (codec.unmarshal r.payload) [
  | none ↦ decode_rows codec now rows
  | some batch ↦
      record { id = r.id; batch = batch; age = now - r.created_at } ∷ decode_rows codec now rows
]

-- `LoadAll`; `none` if the query fails.
unfoldable pub load_all : Codec → Bool → ℕ → BufferDb → Option (List PendingBatch)
unfolding decode_rows
load_all codec reads now b = if reads then some (decode_rows codec now b.rows) else none

-- `DELETE FROM pending_events WHERE id = ?`
unfoldable pub delete_row : ℕ → List Row → List Row
delete_row id rows = keep (λ r. not (r.id == id)) rows

-- The statements of the transaction; `none` if one fails.
unfoldable pub delete_rows : (ℕ → Bool) → List ℕ → List Row → Option (List Row)
unfolding delete_row
delete_rows runs [] rows = some rows
delete_rows runs (id ∷ ids) rows =
    if runs id then delete_rows runs ids (delete_row id rows) else none

-- `Delete`, and whether it went through; `commits` is whether the transaction can be opened and committed.
unfoldable pub delete : (ℕ → Bool) → Bool → List ℕ → BufferDb → BufferDb × Bool
unfolding delete_rows
delete runs commits [] b = (b, true)
delete runs commits (id ∷ ids) b = elim (delete_rows runs (id ∷ ids) b.rows) [
  | none ↦ (b, false)
  | some rows ↦ if commits then (record b { rows = rows }, true) else (b, false)
]

-- `EvictExpired`, and the number of rows gone; `none` if the statement fails.
unfoldable pub evict_expired : Bool → ℕ → ℕ → BufferDb → BufferDb × Option ℕ
evict_expired runs now max_age b =
    let fresh = keep (λ (r : Row). leb now (r.created_at + max_age)) b.rows in
    if runs then (record b { rows = fresh }, some (length b.rows - length fresh)) else (b, none)

-- `NewBufferDB`: an explicit path alone, or the first of the two defaults that opens.
unfoldable pub new_buffer_db : (Str → Option BufferDb) → Str → Option BufferDb
new_buffer_db opens path =
    if length path == 0
    then elim (opens (str "/var/lib/kerneleye/pending.db")) [
      | some b ↦ some b
      | none ↦ opens (str "/tmp/kerneleye/pending.db")
    ]
    else opens path
