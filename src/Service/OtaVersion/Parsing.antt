-- ===== src/Service/OtaVersion/Parsing.antt =====
-- components/service/ota_manifest.cpp: reading a version that is written with dots.
use zigbee_gateway_v.Common.{
  ℕ, zero, suc, ◌+◌, ◌-◌, ◌*◌, ◌≤◌, ◌<◌, ◌≡◌, refl, ap, ◌∙◌, true, false, some, List, [], ◌∷◌, ◌++◌,
  map, arith, ◌==◌, length, u32,
}
use mathlib.Core.Option
use zigbee_gateway_v.Service.OtaVersion.{
  max_parts, is_digit, dot, next_part, scan, parse_dotted_numeric_version,
}

-- The digits of a part, written in ASCII, and the number they stand for.
abbrev pub digits : List ℕ → List ℕ
digits ds = map (λ d. 0x30 + d) ds

unfoldable pub decimal : ℕ → List ℕ → ℕ
decimal n [] = n
decimal n (d ∷ ds) = decimal (n * 10 + d) ds

-- Digits are below 10, and a part has one.
unfoldable pub AllDigits : List ℕ → Type 0
AllDigits [] = Unit {0}
AllDigits (d ∷ ds) = (d < 10) × AllDigits ds

unfoldable pub IsPart : List ℕ → Type 0
IsPart [] = ⊥
IsPart (d ∷ ds) = (d < 10) × AllDigits ds

unfoldable pub AllParts : List (List ℕ) → Type 0
AllParts [] = Unit {0}
AllParts (p ∷ ps) = IsPart p × AllParts ps

-- The parts of a version with the dots between them.
unfoldable pub dotted : List ℕ → List (List ℕ) → List ℕ
dotted p [] = digits p ++ []
dotted p (q ∷ ps) = digits p ++ (dot ∷ dotted q ps)

-- The number of a part as the code computes it.
abbrev pub part_value : List ℕ → ℕ
part_value p = u32 (decimal 0 p)

-- Within a part, digits are read up to the end or the next dot.
scan-digits :
    (ds : List ℕ) (room n : ℕ) (cs : List ℕ)
    → AllDigits ds
    → scan true room (u32 n) (digits ds ++ cs) ≡ scan true room (u32 (decimal n ds)) cs
unfolding scan AllDigits decimal
scan-digits [] room n cs h = refl
scan-digits (d ∷ ds) room n cs h =
    let small = h.0 in
    let not_dot : ((0x30 + d) == dot) ≡ false = ground arith in
    let digit : is_digit (0x30 + d) ≡ true = ground arith in
    let next : next_part (u32 n) (0x30 + d) ≡ u32 (n * 10 + d) = omega arith in
    rw (not_dot, digit, next) (scan-digits ds room (n * 10 + d) cs h.1)

scan-part :
    (p : List ℕ) (room : ℕ) (cs : List ℕ)
    → IsPart p
    → scan false (suc room) 0 (digits p ++ cs) ≡ scan true room (part_value p) cs
unfolding scan IsPart decimal
scan-part [] room cs h = absurd h
scan-part (d ∷ ds) room cs h =
    let small = h.0 in
    let digit : is_digit (0x30 + d) ≡ true = ground arith in
    let first : next_part 0 (0x30 + d) ≡ u32 (0 * 10 + d) = omega arith in
    let some_room : (suc room == 0) ≡ false = ground arith in
    let one : suc room - 1 ≡ room = omega arith in
    rw (some_room, digit, first, one) (scan-digits ds room (0 * 10 + d) cs h.1)

scan-dotted :
    (p : List ℕ) (ps : List (List ℕ)) (room : ℕ)
    → IsPart p
    → AllParts ps
    → length ps ≤ room
    → scan false (suc room) 0 (dotted p ps) ≡ some (map part_value (p ∷ ps))
unfolding scan dotted AllParts
scan-dotted p [] room h all fits = scan-part p room [] h
scan-dotted p (q ∷ ps) zero h all fits = absurd (omega arith)
scan-dotted p (q ∷ ps) (suc room) h all fits =
    scan-part p (suc room) (dot ∷ dotted q ps) h
    ∙ ap (Option.map (◌∷◌ (part_value p))) (scan-dotted q ps room all.0 all.1 (omega arith))

-- A version of one to four parts, each of one or more digits, with dots between them, is read as
-- the numbers of its parts, each modulo 2³².
pub parse-dotted :
    (p : List ℕ) (ps : List (List ℕ))
    → IsPart p
    → AllParts ps
    → length ps < max_parts
    → parse_dotted_numeric_version (dotted p ps) max_parts ≡ some (map part_value (p ∷ ps))
unfolding parse_dotted_numeric_version
parse-dotted p ps h all fits = scan-dotted p ps 3 h all (omega arith)
