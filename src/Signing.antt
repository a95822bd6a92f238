-- ===== src/Signing.antt =====
-- shared/cmdsigning/signing.go: HMAC signatures over block commands and block lists, and the nonce
-- tracker. The hash and the decimal conversions of the standard library are the record `Sys`.
pub mod Payload
pub mod BlockList
use kerneleye.Base.{
  ℕ, ◌==◌, ◌≡◌, ◌≢◌, Bool, true, false, Option, none, some, List, [], ◌∷◌, ◌++◌, arith, length,
  if◌then◌else◌, ◌||◌, ◌%◌, ◌^◌, ◌/◌, ◌<◌, ◌⊎◌,
}
use kerneleye.Base.Str.{Str, str_eq}
use kerneleye.Base.Int.{ℤ, pos, negsuc, ltb_ℤ, leb_ℤ}
use kerneleye.Base.Word.{u32, u64, be32, be64, InI64}

-- Standard library code that the signing code relies on: `crypto/hmac` with SHA-256 (key, message),
-- `fmt.Sprintf("%d", n)` and `strconv.FormatInt`, `strconv.ParseInt(s, 10, 64)` (`none` is its
-- error), `strings.TrimSpace` and `strings.ToLower`; and `int64(d.Seconds())` and `int32(d.Seconds())` of a
-- duration, which go through float64.
pub record Sys : Type 0 where
  pub hmac : Str → Str → Str
  pub format_int : ℤ → Str
  pub parse_int : Str → Option ℤ
  pub trim_space : Str → Str
  pub to_lower : Str → Str
  pub int_seconds : ℕ → ℤ
  pub int32_seconds : ℕ → ℤ

-- A duration that `int64(d.Seconds())` cuts to its whole seconds for sure: it has no fraction, or is short
-- enough that a float64 resolves a nanosecond.
abbrev pub IsExact : ℕ → Type 0
IsExact d = (d % 10 ^ 9 ≡ 0) ⊎ (d < 10 ^ 15)

-- What their documentation says of them.
pub record SysLaws (s : Sys) : Type 0 where
  pub hmac_nonempty : (key message : Str) → s.hmac key message ≢ []
  pub parse-format : (n : ℤ) → InI64 n → s.parse_int (s.format_int n) ≡ some n
  pub trim-format : (n : ℤ) → s.trim_space (s.format_int n) ≡ s.format_int n
  pub int_seconds_exact : (d : ℕ) → IsExact d → d < 2 ^ 63 → s.int_seconds d ≡ pos (d / 10 ^ 9)

-- The key's MAC tells any two messages apart: no collision is met.
abbrev pub CollisionFree : Sys → Str → Type 0
CollisionFree s key = (m n : Str) → s.hmac key m ≡ s.hmac key n → m ≡ n

-- A Go error, by what it says.
pub data Error : Type 0 where
  invalid_signature missing_nonce : Error

-- `Sign`: the nonce is written in front of the payload.
unfoldable pub signed_message : ℤ → Str → Str
signed_message nonce payload = be64 (u64 nonce) ++ payload

unfoldable pub sign : Sys → Str → ℤ → Str → Str
unfolding signed_message
sign s key nonce payload = s.hmac key (signed_message nonce payload)

-- `Verify`: `none` is the nil error.
unfoldable pub verify : Sys → Str → ℤ → Str → Str → Option Error
verify s key nonce payload signature =
    if length signature == 0
    then some missing_nonce
    else if leb_ℤ nonce (pos 0)
    then some missing_nonce
    else if str_eq (sign s key nonce payload) signature
    then none
    else some invalid_signature

-- `NonceTracker`; the mutex makes each call one step.
pub record NonceTracker : Type 0 where
  pub last_seen : ℤ

unfoldable pub check : NonceTracker → ℤ → Bool
check t nonce = ltb_ℤ t.last_seen nonce

unfoldable pub record_nonce : NonceTracker → ℤ → NonceTracker
record_nonce t nonce = if ltb_ℤ t.last_seen nonce then record t { last_seen = nonce } else t

-- A field of variable length behind its length: `AppendUint32(buf, uint32(len(b)))` and `b`.
abbrev sized : Str → Str
sized s = be32 (length s % 2 ^ 32) ++ s

-- `BuildCanonicalPayload`; int32 and int64 arguments are integers.
unfoldable pub build_canonical_payload : ℤ → Str → ℤ → Str → Str → ℤ → ℤ → Str
build_canonical_payload action ip duration reason block_id block_type issued_at =
    be32 (u32 action)
    ++ (sized ip
        ++ (be64 (u64 duration)
            ++ (sized reason
                ++ (sized block_id ++ (be32 (u32 block_type) ++ be64 (u64 issued_at))))))

-- `BlockListEntry`
pub record BlockListEntry : Type 0 where
  pub ip_address : Str
  pub duration_seconds : ℤ
  pub reason : Str
  pub block_type : ℤ
  pub expires_at : ℤ

-- One round of the loop of `BuildBlockListPayload`, behind the separator; `byte(e.BlockType)` keeps
-- the low eight bits.
unfoldable pub entry_bytes : BlockListEntry → Str
entry_bytes e =
    e.ip_address
    ++ (0
        ∷ (u32 e.block_type % 256
            ∷ (0
                ∷ (be64 (u64 e.duration_seconds)
                    ++ (0 ∷ (be64 (u64 e.expires_at) ++ (0 ∷ e.reason)))))))

-- The rounds after the first, each with its '\n'.
unfoldable pub more_entries : List BlockListEntry → Str
more_entries [] = []
more_entries (e ∷ es) = b'\n' ∷ (entry_bytes e ++ more_entries es)

unfoldable pub build_block_list_payload : List BlockListEntry → Str
build_block_list_payload [] = []
build_block_list_payload (e ∷ es) = entry_bytes e ++ more_entries es
