-- ===== src/Service/OtaVersion/Order.antt =====
-- components/service/ota_manifest.cpp: the order of versions.
use zigbee_gateway_v.Common.{
  ℕ, zero, suc, ◌+◌, ◌-◌, ◌*◌, ◌≤◌, ◌<◌, ◌≡◌, refl, sym, subst, ap, ◌∙◌, Bool, true, false, Option,
  Option-cases, none, some, Bool-cases, inl, inr, List, [], ◌∷◌, arith, ltb, ◌==◌, if◌then◌else◌,
  length, get_or, get_or-ge,
}
use mathlib.Core.Option
use zigbee_gateway_v.Service.OtaVersion.{
  max_parts, dot, is_digit, next_part, scan, older_from, older, is_downgrade,
  parse_dotted_numeric_version,
}

-- A version as one number of 128 bits, 32 for each part.
abbrev pub version_number : List ℕ → ℕ
version_number parts =
    get_or parts 0 0 * 0x1000000000000000000000000
    + get_or parts 1 0 * 0x10000000000000000
    + get_or parts 2 0 * 0x100000000
    + get_or parts 3 0

-- Every part is a uint32_t.
unfoldable pub AllSmall : List ℕ → Type 0
AllSmall [] = Unit {0}
AllSmall (part ∷ parts) = (part < 0x100000000) × AllSmall parts

small-get_or : (parts : List ℕ) (i : ℕ) → AllSmall parts → get_or parts i 0 < 0x100000000
unfolding AllSmall
small-get_or [] i all = omega arith
small-get_or (part ∷ parts) zero all = all.0
small-get_or (part ∷ parts) (suc i) all = small-get_or parts i all.1

-- One round compares the first parts, and the rest decides where these are the same.
older_from_first :
    (n i : ℕ) (r c : List ℕ)
    → older_from (suc n) i r c ≡ (
        if get_or r i 0 == get_or c i 0
        then older_from n (i + 1) r c
        else ltb (get_or r i 0) (get_or c i 0))
unfolding older_from
older_from_first n i r c = ground arith

older_from_none : (i : ℕ) (r c : List ℕ) → older_from 0 i r c ≡ false
unfolding older_from
older_from_none i r c = refl

-- Past the end of both versions nothing is older.
older_from_past :
    (n i : ℕ) (r c : List ℕ) → length r ≤ i → length c ≤ i → older_from n i r c ≡ false
older_from_past zero i r c h k = older_from_none i r c
older_from_past (suc n) i r c h k = ground (
  arith,
  older_from_first n i r c,
  get_or-ge r i 0 h,
  get_or-ge c i 0 k,
  older_from_past n (i + 1) r c (omega arith) (omega arith),
)

older_from_enough :
    (n m i : ℕ) (r c : List ℕ)
    → length r ≤ i + n
    → length c ≤ i + n
    → n ≤ m
    → older_from m i r c ≡ older_from n i r c
older_from_enough zero m i r c h k le =
    older_from_past m i r c (omega arith) (omega arith) ∙ sym (older_from_none i r c)
older_from_enough (suc n) zero i r c h k le = absurd (omega arith)
older_from_enough (suc n) (suc m) i r c h k le =
    rw
      (
        older_from_first m i r c,
        older_from_first n i r c,
        older_from_enough n m (i + 1) r c (omega arith) (omega arith) (omega arith),
      )
      refl

-- The first parts decide, or the rest where they are the same.
abbrev if_same : ℕ → ℕ → Bool → Bool
if_same a b rest = if a == b then rest else ltb a b

last_part : (a b : ℕ) → if_same a b false ≡ ltb a b
last_part a b = ground arith

lexicographic :
    (a b c d w x y z : ℕ)
    → b < 0x100000000
    → c < 0x100000000
    → d < 0x100000000
    → x < 0x100000000
    → y < 0x100000000
    → z < 0x100000000
    → if_same a w (if_same b x (if_same c y (ltb d z)))
      ≡ ltb
          (a * 0x1000000000000000000000000 + b * 0x10000000000000000 + c * 0x100000000 + d)
          (w * 0x1000000000000000000000000 + x * 0x10000000000000000 + y * 0x100000000 + z)
lexicographic a b c d w x y z hb hc hd hx hy hz = ground arith

older_four :
    (r c : List ℕ)
    → AllSmall r
    → AllSmall c
    → older_from 4 0 r c ≡ ltb (version_number r) (version_number c)
older_four r c h k =
    older_from_first 3 0 r c
    ∙ ap (if_same (get_or r 0 0) (get_or c 0 0)) (
        older_from_first 2 1 r c
        ∙ ap (if_same (get_or r 1 0) (get_or c 1 0)) (
            older_from_first 1 2 r c
            ∙ ap (if_same (get_or r 2 0) (get_or c 2 0)) (
                older_from_first 0 3 r c
                ∙ ap (if_same (get_or r 3 0) (get_or c 3 0)) (older_from_none 4 r c)
                ∙ last_part (get_or r 3 0) (get_or c 3 0))))
    ∙ lexicographic (get_or r 0 0) (get_or r 1 0) (get_or r 2 0) (get_or r 3 0) (get_or c 0 0)
        (get_or c 1 0) (get_or c 2 0) (get_or c 3 0) (small-get_or r 1 h) (small-get_or r 2 h)
        (small-get_or r 3 h) (small-get_or c 1 k) (small-get_or c 2 k) (small-get_or c 3 k)

older-version_number :
    (r c : List ℕ)
    → AllSmall r
    → AllSmall c
    → length r ≤ max_parts
    → length c ≤ max_parts
    → older r c ≡ ltb (version_number r) (version_number c)
unfolding older
older-version_number r c h k hr hc =
    sym (
      older_from_enough (if ltb (length c) (length r) then length r else length c) max_parts 0 r c
        (ground arith) (ground arith) (ground arith))
    ∙ older_four r c h k

-- The room for a part that is being read.
abbrev room_of : Bool → ℕ
room_of true = 1
room_of false = 0

-- What is read fits its array, and each part is a uint32_t.
scan-AllSmall :
    (in_part : Bool) (room part : ℕ) (cs parts : List ℕ)
    → part < 0x100000000
    → scan in_part room part cs ≡ some parts
    → AllSmall parts × (length parts ≤ room + room_of in_part)
unfolding scan AllSmall
scan-AllSmall true room part [] parts small = λ h. ground arith
scan-AllSmall false room part [] parts small = λ h. cc
scan-AllSmall true room part (c ∷ cs) parts small = elim (Bool-cases (c == dot)) [
  | inl d ↦ rw d (λ h. after (scan-AllSmall false room 0 cs) h)
  | inr d ↦ rw d (elim (Bool-cases (is_digit c)) [
    | inl k ↦ rw k (λ h. scan-AllSmall true room (next_part part c) cs parts (omega arith) h)
    | inr k ↦ rw k (λ h. cc)
  ])
]
  where
    after :
        ((ps : List ℕ)
          → 0 < 0x100000000
          → scan false room 0 cs ≡ some ps
          → AllSmall ps × (length ps ≤ room + 0))
        → Option.map (◌∷◌ part) (scan false room 0 cs) ≡ some parts
        → AllSmall parts × (length parts ≤ room + 1)
    after rest = elim (Option-cases (scan false room 0 cs)) [
      | inl e ↦ rw e (λ h. cc)
      | inr (ps, e) ↦
          let (all, fits) = rest ps (omega arith) e in
          rw e (λ h.
            let same : part ∷ ps ≡ parts = cc in
            subst (λ l. AllSmall l × (length l ≤ room + 1)) same
              ((small, all), omega (arith, fits)))
    ]
scan-AllSmall false room part (c ∷ cs) parts small = elim (Bool-cases (room == 0)) [
  | inl z ↦ rw z (λ h. cc)
  | inr z ↦ rw z (elim (Bool-cases (is_digit c)) [
    | inl k ↦ rw k (λ h.
        let (all, fits) = scan-AllSmall true (room - 1) (next_part 0 c) cs parts (omega arith) h in
        (all, ground (arith, fits, z)))
    | inr k ↦ rw k (λ h. cc)
  ])
]

-- The order of two versions that can both be read.
abbrev pub goes_back : Option (List ℕ) → Option (List ℕ) → Bool
goes_back none current = false
goes_back (some r) none = false
goes_back (some r) (some c) = ltb (version_number r) (version_number c)

parsed :
    (value parts : List ℕ)
    → parse_dotted_numeric_version value max_parts ≡ some parts
    → AllSmall parts × (length parts ≤ max_parts)
unfolding parse_dotted_numeric_version
parsed value parts h = scan-AllSmall false max_parts 0 value parts (omega arith) h

-- An update is a downgrade exactly if both versions can be read and, as numbers of 128 bits with 32
-- bits for each part and 0 for the parts that are missing, the requested one is less.
pub is_downgrade_lem :
    (requested current : List ℕ)
    → is_downgrade requested current
      ≡ goes_back
          (parse_dotted_numeric_version requested max_parts)
          (parse_dotted_numeric_version current max_parts)
unfolding is_downgrade
is_downgrade_lem requested current =
    elim (Option-cases (parse_dotted_numeric_version requested max_parts)) [
      | inl h ↦ rw (h, is_downgrade) refl
      | inr (r, h) ↦ elim (Option-cases (parse_dotted_numeric_version current max_parts)) [
        | inl k ↦ rw (h, k, is_downgrade) refl
        | inr (c, k) ↦
            let (small_r, fits_r) = parsed requested r h in
            let (small_c, fits_c) = parsed current c k in
            rw (h, k, is_downgrade) (older-version_number r c small_r small_c fits_r fits_c)
      ]
    ]
