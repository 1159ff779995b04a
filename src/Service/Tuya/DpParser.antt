-- ===== src/Service/Tuya/DpParser.antt =====
-- components/service/tuya_dp_parser.cpp and components/service/include/tuya_payload_view.hpp: the
-- data points of a Tuya frame. The payload is the list of its bytes, so `data_len` is its length;
-- `data` is null exactly when it is empty. An item holds its value alone: the bytes after
-- `value_len` are never read.
use zigbee_gateway_v.Common.{
  ℕ, zero, suc, ◌*◌, Bool, false, not, ◌&&◌, ◌||◌, Option, none, some, List, [], ◌∷◌, ltb, ◌==◌,
  if◌then◌else◌, length, get_or, take, drop, u16, u32,
}
use zigbee_gateway_v.Common.Int.{ℤ, i32_of_bits}
use Prim.Native.Nat.{bit_or}

abbrev pub private_cluster_id : ℕ
private_cluster_id = 0xef00

abbrev pub dp_max_per_frame : ℕ
dp_max_per_frame = 8

abbrev pub dp_value_max_len : ℕ
dp_value_max_len = 32

abbrev pub payload_max_len : ℕ
payload_max_len = 128

pub record TuyaPayloadView : Type 0 where
  pub short_addr : ℕ  -- uint16_t
  pub endpoint : ℕ  -- uint8_t
  pub cluster_id : ℕ  -- uint16_t
  pub payload : List ℕ  -- `data`, of uint8_t

abbrev pub is_tuya_cluster : TuyaPayloadView → Bool
is_tuya_cluster view = view.cluster_id == private_cluster_id

abbrev pub is_valid : TuyaPayloadView → Bool
is_valid view = ltb 0 (length view.payload) && not (view.short_addr == 0xffff)

pub data TuyaDpType : Type 0 where
  raw bool value string enum bitmap unknown : TuyaDpType

pub record TuyaDpItem : Type 0 where
  pub dp_id : ℕ  -- uint8_t
  pub dp_type : TuyaDpType
  pub value : List ℕ  -- its length is `value_len`

abbrev pub as_bool : TuyaDpItem → Bool
as_bool item = if length item.value == 0 then false else not (get_or item.value 0 0 == 0)

-- The loop of `as_u32`: `(result << 8) | value[i]`.
unfoldable pub big_endian : List ℕ → ℕ → ℕ
big_endian [] result = result
big_endian (b ∷ bs) result = big_endian bs (bit_or (u32 (result * 256)) b)

unfoldable pub as_u32 : TuyaDpItem → ℕ
as_u32 item =
    big_endian (take (if ltb 4 (length item.value) then 4 else length item.value) item.value) 0

unfoldable pub as_i32 : TuyaDpItem → ℤ
as_i32 item = i32_of_bits (as_u32 item)

abbrev pub as_enum : TuyaDpItem → ℕ
as_enum item = if length item.value == 0 then 0 else get_or item.value 0 0

pub data TuyaDpParseStatus : Type 0 where
  ok payload_too_short payload_too_long dp_value_too_long dp_overflow malformed : TuyaDpParseStatus

pub record TuyaDpParseResult : Type 0 where
  pub status : TuyaDpParseStatus
  pub short_addr : ℕ  -- uint16_t
  pub endpoint : ℕ  -- uint8_t
  pub items : List TuyaDpItem  -- its length is `dp_count`

unfoldable pub find_dp : List TuyaDpItem → ℕ → Option TuyaDpItem
find_dp [] dp_id = none
find_dp (item ∷ items) dp_id = if item.dp_id == dp_id then some item else find_dp items dp_id

-- `static_cast<TuyaDpType>` of a type that is not above `kBitmap`.
abbrev pub dp_type_of : ℕ → TuyaDpType
dp_type_of n =
    if n == 0
    then TuyaDpType.raw
    else if n == 1
    then TuyaDpType.bool
    else if n == 2
    then TuyaDpType.value
    else if n == 3
    then TuyaDpType.string
    else if n == 4
    then TuyaDpType.enum
    else if n == 5
    then TuyaDpType.bitmap
    else TuyaDpType.unknown

-- `(high << 8) | low` as uint16_t.
abbrev pub join_bytes : ℕ → ℕ → ℕ
join_bytes high low = u16 (bit_or (u16 (high * 256)) low)

-- The loop of `parse` on the bytes from `offset` on, with the number of items for which the result
-- still has room.
unfoldable pub parse_records : ℕ → List ℕ → List TuyaDpItem × TuyaDpParseStatus
parse_records room [] = ([], TuyaDpParseStatus.ok)
parse_records zero (b ∷ bs) = ([], TuyaDpParseStatus.dp_overflow)
parse_records (suc room) (b ∷ bs) =
    let dp_len = join_bytes (get_or bs 1 0) (get_or bs 2 0) in
    let after = drop 3 bs in
    let (items, status) = parse_records room (drop dp_len after) in
    if ltb (length bs) 3
    then ([], TuyaDpParseStatus.malformed)
    else if ltb dp_value_max_len dp_len
    then ([], TuyaDpParseStatus.dp_value_too_long)
    else if ltb (length after) dp_len
    then ([], TuyaDpParseStatus.malformed)
    else (
      record { dp_id = b; dp_type = dp_type_of (get_or bs 0 0); value = take dp_len after } ∷ items,
      status,
    )

abbrev parse_result : TuyaPayloadView → List TuyaDpItem × TuyaDpParseStatus → TuyaDpParseResult
parse_result view (items, status) = record {
  status = status;
  short_addr = view.short_addr;
  endpoint = view.endpoint;
  items = items;
}

unfoldable pub parse : TuyaPayloadView → TuyaDpParseResult
parse view = parse_result view (
    if not (is_valid view) || not (is_tuya_cluster view)
    then ([], TuyaDpParseStatus.malformed)
    else if ltb (length view.payload) 2
    then ([], TuyaDpParseStatus.payload_too_short)
    else if ltb payload_max_len (length view.payload)
    then ([], TuyaDpParseStatus.payload_too_long)
    else parse_records dp_max_per_frame (drop 2 view.payload))
