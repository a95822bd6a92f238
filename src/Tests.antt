-- ===== src/Tests.antt =====
-- Runs of the theorems on concrete data, and the data.
pub mod Channel
pub mod Blocks
pub mod Traffic
pub mod Acts
pub mod Backend
pub mod Flow
use kerneleye.Base.{
  ℕ, zero, ◌/◌, ◌^◌, ◌≡◌, ◌≢◌, refl, Bool, true, false, Option, none, some, List, [], ◌∷◌, arith,
}
use kerneleye.Base.Str.{Str, str}
use kerneleye.Base.Int.{ℤ, pos, negsuc}
use kerneleye.Base.Word.{InI64}
use kerneleye.Signing.{Sys, SysLaws, CollisionFree}

-- A number as its value, behind a zero if it is negative, and a hash that keeps the message.
abbrev format : ℤ → Str
format (pos n) = n ∷ []
format (negsuc n) = 0 ∷ n ∷ []

abbrev parse : Str → Option ℤ
parse (n ∷ []) = some (pos n)
parse (zero ∷ n ∷ []) = some (negsuc n)
parse _ = none

abbrev pub sys : Sys
sys = record {
  hmac = λ key message. 0 ∷ message;
  format_int = format;
  parse_int = parse;
  trim_space = λ s. s;
  to_lower = λ s. s;
  int_seconds = λ d. pos (d / 10 ^ 9);
  int32_seconds = λ d. pos (d / 10 ^ 9);
}

pub parse_back : (n : ℤ) → parse (format n) ≡ some n
parse_back (pos n) = refl
parse_back (negsuc n) = refl

pub sys_laws : SysLaws sys
sys_laws = record {
  hmac_nonempty = λ key message. cc;
  parse-format = λ n h. parse_back n;
  trim-format = λ n. refl;
  int_seconds_exact = λ d e h. refl;
}

pub sys-CollisionFree : (key : Str) → CollisionFree sys key
sys-CollisionFree key m n h = ground arith

abbrev pub key : Str
key = str "key"

abbrev pub address : Str
address = str "8.8.4.4"
