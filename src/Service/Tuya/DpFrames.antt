-- ===== src/Service/Tuya/DpFrames.antt =====
-- components/service/tuya_dp_parser.cpp: the frames that its format comment describes.
use zigbee_gateway_v.Common.{
  ℕ, zero, suc, ◌≤◌, ◌<◌, ◌≡◌, refl, ap, ◌≢◌, false, not, ◌||◌, List, [], ◌∷◌, ◌++◌, arith, ltb,
  length, length-append, drop, take-append, drop-append,
}
use zigbee_gateway_v.Common.Table.{zero-bit_or}
use zigbee_gateway_v.Service.Tuya.DpParser.{
  TuyaPayloadView, TuyaDpItem, TuyaDpType, TuyaDpParseStatus, private_cluster_id, dp_max_per_frame,
  dp_value_max_len, payload_max_len, is_valid, is_tuya_cluster, dp_type_of, join_bytes,
  parse_records, parse,
}

-- The code of a type on the wire.
abbrev pub type_code : TuyaDpType → ℕ
type_code TuyaDpType.raw = 0
type_code TuyaDpType.bool = 1
type_code TuyaDpType.value = 2
type_code TuyaDpType.string = 3
type_code TuyaDpType.enum = 4
type_code TuyaDpType.bitmap = 5
type_code TuyaDpType.unknown = 0xff

dp_type_of-type_code : (t : TuyaDpType) → dp_type_of (type_code t) ≡ t
dp_type_of-type_code TuyaDpType.raw = refl
dp_type_of-type_code TuyaDpType.bool = refl
dp_type_of-type_code TuyaDpType.value = refl
dp_type_of-type_code TuyaDpType.string = refl
dp_type_of-type_code TuyaDpType.enum = refl
dp_type_of-type_code TuyaDpType.bitmap = refl
dp_type_of-type_code TuyaDpType.unknown = refl

-- The bytes of an item: identifier, type, two bytes of length, most significant first, and value.
-- The length of a value that fits has the high byte 0.
abbrev pub encode_item : TuyaDpItem → List ℕ
encode_item item = item.dp_id ∷ type_code item.dp_type ∷ 0 ∷ length item.value ∷ item.value

abbrev pub encode_items : List TuyaDpItem → List ℕ
encode_items [] = []
encode_items (item ∷ items) = encode_item item ++ encode_items items

-- Every value fits an item.
abbrev pub Fit : List TuyaDpItem → Type 0
Fit [] = Unit {0}
Fit (item ∷ items) = (length item.value ≤ dp_value_max_len) × Fit items

join_bytes-length : (n : ℕ) → n < 256 → join_bytes 0 n ≡ n
join_bytes-length n h = rw (zero-bit_or n h) (omega arith)

parse_records-encode :
    (room : ℕ) (items : List TuyaDpItem)
    → Fit items
    → length items ≤ room
    → parse_records room (encode_items items) ≡ (items, TuyaDpParseStatus.ok)
unfolding parse_records
parse_records-encode room [] fit le = refl
parse_records-encode zero (item ∷ items) fit le = absurd (omega arith)
parse_records-encode (suc room) (item ∷ items) fit le =
    rw
      (
        join_bytes-length (length item.value) (omega (arith, fit.0)),
        header,
        short,
        whole,
        drop-append item.value (encode_items items),
        take-append item.value (encode_items items),
        dp_type_of-type_code item.dp_type,
        parse_records-encode room items fit.1 (omega arith),
      )
      refl
  where
    header : ltb (suc (suc (suc (length (item.value ++ encode_items items))))) 3 ≡ false
    header = ground arith

    short : ltb dp_value_max_len (length item.value) ≡ false
    short = ground (arith, fit.0)

    whole : ltb (length (item.value ++ encode_items items)) (length item.value) ≡ false
    whole = ground (arith, length-append item.value (encode_items items))

-- The frame of two header bytes and at most eight items whose values have at most 32 bytes, within
-- 128 bytes and from a known address, is parsed to exactly these items.
pub parse-frame :
    (view : TuyaPayloadView) (status_byte sequence_byte : ℕ) (items : List TuyaDpItem)
    → view.payload ≡ status_byte ∷ sequence_byte ∷ encode_items items
    → view.cluster_id ≡ private_cluster_id
    → view.short_addr ≢ 0xffff
    → length items ≤ dp_max_per_frame
    → Fit items
    → length view.payload ≤ payload_max_len
    → parse view ≡ record {
      status = TuyaDpParseStatus.ok;
      short_addr = view.short_addr;
      endpoint = view.endpoint;
      items = items;
    }
unfolding parse
parse-frame view status_byte sequence_byte items e cluster known few fit small =
    rw (accepted, long, fits, ap (drop 2) e, parse_records-encode dp_max_per_frame items fit few)
      refl
  where
    size : length view.payload ≡ suc (suc (length (encode_items items)))
    size = ap length e

    accepted : (not (is_valid view) || not (is_tuya_cluster view)) ≡ false
    accepted = ground (arith, size, cluster, known)

    long : ltb (length view.payload) 2 ≡ false
    long = ground (arith, size)

    fits : ltb payload_max_len (length view.payload) ≡ false
    fits = ground (arith, small)
