-- ===== src/Core/DeviceId/Text.antt =====
-- The text form of `DeviceId` (`parse` and `format` of components/core/device_id.cpp).
use Prim.Native.Nat.{bit_or}
use zigbee_gateway_v.Common.{
  ℕ, zero, suc, ◌+◌, ◌*◌, ◌/◌, ◌%◌, ◌<◌, ◌≡◌, refl, sym, ap, subst, ◌∙◌, true, Option, none, some,
  List, [], ◌∷◌, arith, length, ◌==◌, eq→==, if◌then◌else◌, get_or, get_or_ext, All,
}
use zigbee_gateway_v.Core.DeviceId.{
  DeviceId, byte_length, hex_length, hex_nibble, join_nibbles, parse_bytes, parse, hex_digit,
  format_bytes, format, ◌>>=◌,
}
use mathlib.Core.Option.{some-injective}
use zigbee_gateway_v.Common.Table.{bit_and-low_nibble, bit_or-nibbles}

hex_nibble-hex_digit : (n : ℕ) → n < 16 → hex_nibble (hex_digit n) ≡ some n
unfolding hex_nibble
hex_nibble-hex_digit n h = ground arith

-- Only the canonical, lowercase digit of a nibble is read as that nibble.
hex_digit-hex_nibble : (c n : ℕ) → hex_nibble c ≡ some n → (n < 16) × (hex_digit n ≡ c)
unfolding hex_nibble
hex_digit-hex_nibble c n h = ground arith

join_nibbles-digits : (b : ℕ) → b < 256 → join_nibbles (b / 16) (b % 16) ≡ b
join_nibbles-digits b h = omega (arith, bit_or-nibbles b h)

nibbles-join : (h l : ℕ) → h < 16 → l < 16 → join_nibbles h l ≡ h * 16 + l
nibbles-join h l p q =
    rw (join_arg h l p q) (omega (arith, bit_or-nibbles (h * 16 + l) (omega arith)))
  where
    join_arg :
        (h l : ℕ)
        → h < 16
        → l < 16
        → bit_or (h * 16) l ≡ bit_or ((h * 16 + l) / 16 * 16) ((h * 16 + l) % 16)
    join_arg h l p q = rw (quot, rem) refl
      where
        quot : (h * 16 + l) / 16 ≡ h
        quot = omega arith

        rem : (h * 16 + l) % 16 ≡ l
        rem = omega arith

length-format_bytes : (bs : List ℕ) → length (format_bytes bs) ≡ length bs * 2
unfolding format_bytes
length-format_bytes [] = refl
length-format_bytes (b ∷ bs) = omega (arith, length-format_bytes bs)

-- From character `i * 2` on, `text` holds the text form of `bs`.
abbrev Holds : List ℕ → ℕ → List ℕ → Type 0
Holds text i bs =
    (j k : ℕ)
    → j ≡ i * 2 + k
    → k < length (format_bytes bs)
    → get_or text j 0 ≡ get_or (format_bytes bs) k 0

parse_bytes-format :
    (bs : List ℕ) (i : ℕ) (text : List ℕ)
    → All (λ b. b < 256) bs
    → Holds text i bs
    → parse_bytes (length bs) i text ≡ some bs
unfolding parse_bytes format_bytes
parse_bytes-format [] i text r h = refl
parse_bytes-format (b ∷ bs) i text r h =
    rw
      (
        high,
        low,
        parse_bytes-format bs (i + 1) text r.1
            (λ j k e lt. h j (suc (suc k)) (omega arith) (omega arith)),
      )
      (ap (λ (x : ℕ). some (x ∷ bs)) (join_nibbles-digits b r.0))
  where
    high : hex_nibble (get_or text (i * 2) 0) ≡ some (b / 16)
    high =
        rw (h (i * 2) 0 (omega arith) (omega arith), bit_and-low_nibble (b / 16) (omega arith))
          (hex_nibble-hex_digit _ (omega arith) ∙ ap some (omega arith))

    low : hex_nibble (get_or text (i * 2 + 1) 0) ≡ some (b % 16)
    low =
        rw (h (i * 2 + 1) 1 (omega arith) (omega arith), bit_and-low_nibble b r.0)
          (hex_nibble-hex_digit _ (omega arith))

-- What a successful `parse_bytes` says of its text.
abbrev Parsed : ℕ → ℕ → List ℕ → List ℕ → Type 0
Parsed n i text bs = (length bs ≡ n) × All (λ b. b < 256) bs × Holds text i bs

-- One byte more at the front.
Parsed-cons :
    (n i high low : ℕ) (text bs : List ℕ)
    → hex_nibble (get_or text (i * 2) 0) ≡ some high
    → hex_nibble (get_or text (i * 2 + 1) 0) ≡ some low
    → Parsed n (i + 1) text bs
    → Parsed (suc n) i text (join_nibbles high low ∷ bs)
unfolding format_bytes
Parsed-cons n i high low text bs eh el (len, small, holds) =
    (omega arith, (omega arith, small), chars)
  where
    hi : (high < 16) × (hex_digit high ≡ get_or text (i * 2) 0)
    hi = hex_digit-hex_nibble _ high eh

    lo : (low < 16) × (hex_digit low ≡ get_or text (i * 2 + 1) 0)
    lo = hex_digit-hex_nibble _ low el

    joined : join_nibbles high low ≡ high * 16 + low
    joined = nibbles-join high low hi.0 lo.0

    chars : Holds text i (join_nibbles high low ∷ bs)
    chars j zero e lt =
        rw (bit_and-low_nibble (join_nibbles high low / 16) (omega arith), joined)
          (ap (λ (t : ℕ). get_or text t 0) (omega arith)
            ∙ sym hi.1
            ∙ ap hex_digit (omega (arith, hi.0, lo.0)))
    chars j (suc zero) e lt =
        rw (bit_and-low_nibble (join_nibbles high low) (omega arith), joined)
          (ap (λ (t : ℕ). get_or text t 0) (omega arith)
            ∙ sym lo.1
            ∙ ap hex_digit (omega (arith, hi.0, lo.0)))
    chars j (suc (suc k)) e lt = holds j k (omega arith) (omega arith)

-- The body of one round of `parse_bytes`, with what it has read.
Parsed-round :
    (n i : ℕ) (text bs : List ℕ) (high low : Option ℕ) (rest : Option (List ℕ))
    → hex_nibble (get_or text (i * 2) 0) ≡ high
    → hex_nibble (get_or text (i * 2 + 1) 0) ≡ low
    → ((r : List ℕ) → rest ≡ some r → Parsed n (i + 1) text r)
    → (high >>= λ h. low >>= λ l. rest >>= λ r. some (join_nibbles h l ∷ r)) ≡ some bs
    → Parsed (suc n) i text bs
Parsed-round n i text bs none low rest eh el ih e = cc
Parsed-round n i text bs (some h) none rest eh el ih e = cc
Parsed-round n i text bs (some h) (some l) none eh el ih e = cc
Parsed-round n i text bs (some h) (some l) (some r) eh el ih e =
    subst (Parsed (suc n) i text) (some-injective _ _ e)
      (Parsed-cons n i h l text r eh el (ih r refl))

parse_bytes-Parsed :
    (n i : ℕ) (text bs : List ℕ) → parse_bytes n i text ≡ some bs → Parsed n i text bs
unfolding parse_bytes format_bytes
parse_bytes-Parsed zero i text [] h = (refl, tt, λ j k e lt. elim lt [ ])
parse_bytes-Parsed zero i text (b ∷ bs) h = cc
parse_bytes-Parsed (suc n) i text bs h =
    Parsed-round n i text bs _ _ _ refl refl (parse_bytes-Parsed n (i + 1) text) h

-- A `DeviceId` of the code: eight bytes.
pub record IsId (d : DeviceId) : Type 0 where
  pub eight : length d.bytes ≡ byte_length
  pub small : All (λ b. b < 256) d.bytes

parse-format_bytes :
    (bs : List ℕ)
    → length bs ≡ byte_length
    → All (λ b. b < 256) bs
    → parse (format_bytes bs) ≡ some (record { bytes = bs })
unfolding parse
parse-format_bytes bs len small = rw (sixteen, read)
  where
    sixteen : (length (format_bytes bs) == hex_length) ≡ true
    sixteen = eq→== _ _ (omega (arith, length-format_bytes bs))

    read : parse_bytes byte_length 0 (format_bytes bs) ≡ some bs
    read =
        subst (λ n. parse_bytes n 0 (format_bytes bs) ≡ some bs) len
          (parse_bytes-format bs 0 (format_bytes bs) small
            (λ j k e lt. ap (λ (t : ℕ). get_or (format_bytes bs) t 0) (omega arith)))

-- `parse` reads back what `format` writes into a buffer that is large enough.
pub parse-format :
    (d : DeviceId) (out_capacity : ℕ) (text : List ℕ)
    → IsId d
    → format d out_capacity ≡ some text
    → parse text ≡ some d
unfolding format
parse-format d out_capacity text v h =
    subst (λ t. parse t ≡ some d) written (parse-format_bytes d.bytes v.eight v.small)
  where
    written : format_bytes d.bytes ≡ text
    written = ground arith

-- A text that `parse` accepts has sixteen characters, is read as eight bytes, and is the very text
-- that `format` writes for them: an identity has one text form only.
pub format-parse :
    (d : DeviceId) (text : List ℕ)
    → parse text ≡ some d
    → IsId d × (length text ≡ hex_length) × (format d hex_length ≡ some text)
unfolding parse format
format-parse d text h = go (parse_bytes byte_length 0 text) refl h
  where
    go :
        (r : Option (List ℕ))
        → parse_bytes byte_length 0 text ≡ r
        → (if length text == hex_length
            then (r >>= λ bytes. some (record { bytes = bytes }))
            else none)
          ≡ some d
        → IsId d × (length text ≡ hex_length) × (format d hex_length ≡ some text)
    go none e h = absurd (ground arith)
    go (some bs) e h = (
      record { eight = ground (arith, p.0); small = subst (λ t. All (λ b. b < 256) t) same p.1 },
      len,
      ap some (
          subst (λ t. format_bytes t ≡ text) same
            (get_or_ext _ _ 0 (omega (arith, length-format_bytes bs, p.0, len))
              (λ k lt. sym (p.2 k k (omega arith) lt)))),
    )
      where
        p : Parsed byte_length 0 text bs
        p = parse_bytes-Parsed byte_length 0 text bs e

        len : length text ≡ hex_length
        len = ground arith

        same : bs ≡ d.bytes
        same = ground arith
