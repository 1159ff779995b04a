-- ===== src/Service/Reporting/Alternation.antt =====
-- components/service/reporting_manager.cpp: the occupancy events of a device alternate.
use zigbee_gateway_v.Common.{
  ℕ, ◌<◌, ◌≡◌, refl, sym, subst, ap, ◌∙◌, ◌≢◌, Bool, true, false, not, Option, Option-cases,
  Bool-cases, inl, inr, some, List, [], ◌∷◌, arith, ◌==◌, ==→eq, if◌then◌else◌, ℕ_discrete, length,
  get_or, get_or-set, get_or-set_self, get_or-set_ne, set, find_index, find_index-some,
  find_index-set, find_index-cong, length-set,
}
use zigbee_gateway_v.Common.Int.{pos, negsuc}
use zigbee_gateway_v.Core.Events.{CoreEvent, unknown_short_addr}
use zigbee_gateway_v.Service.Reporting.Entry.{Entry, no_entry, valid_short_addr, has_addr, is_free}
use zigbee_gateway_v.Service.Reporting.Occupancy.{
  OccupancyPolicy, filter, normalize_occupancy_report, index_or_free, occupancy_event,
  filter-IsNews,
}
use zigbee_gateway_v.Service.Reporting.Table.{Inv, IsPlace, index_or_free-IsPlace}
use zigbee_gateway_v.Service.Reporting.Writes.{normalize-Inv, filter-same}

-- The occupancy last announced for an entry and for a device.
abbrev pub announced : Entry → Option Bool
announced e = if e.occupancy_valid then some e.occupancy_stable else Option.none

unfoldable pub occupancy_of : List Entry → ℕ → Option Bool
occupancy_of es a = elim (find_index (has_addr a) es) [
  | Option.none ↦ Option.none
  | some i ↦ announced (get_or es i no_entry)
]

-- The filter announces a value that is new, and only by an event.
filter-emits :
    (raw : Bool) (now_ms : ℕ) (policy : OccupancyPolicy) (e : Entry)
    → (filter raw now_ms policy e).1 ≡ true
    → (announced e ≢ some raw) × (announced (filter raw now_ms policy e).0 ≡ some raw)
filter-emits raw now_ms policy e h =
    let news = filter-IsNews raw now_ms policy e h in
    (λ same. ground (arith, news.change), rw (news.now_known, news.value) refl)

filter-quiet :
    (raw : Bool) (now_ms : ℕ) (policy : OccupancyPolicy) (e : Entry)
    → (filter raw now_ms policy e).1 ≡ false
    → announced (filter raw now_ms policy e).0 ≡ announced e
unfolding filter
filter-quiet raw now_ms policy e h = ground arith

module _ (es : List Entry) (inv : Inv es) (a i : ℕ) (e : Entry) (place : IsPlace es a i)
    (valid : valid_short_addr a ≡ true) (same : e.short_addr ≡ a) where
  in_range : i < length es
  in_range = elim place [
    | inl h ↦ (find_index-some (has_addr a) es i no_entry h).0
    | inr h ↦ (find_index-some is_free es i no_entry h.1).0
  ]

  find-set : find_index (has_addr a) (set es i e) ≡ some i
  find-set = elim place [
    | inr h ↦ find_index-set (has_addr a) es i e h.0 in_range (ground arith)
    | inl h ↦
        let hit = find_index-some (has_addr a) es i no_entry h in
        find_index-cong (has_addr a) (set es i e) es no_entry (length-set es i e)
          (λ j lt. ground (arith, get_or-set es i e j no_entry, hit.1))
        ∙ h
  ]

  occupancy_of-here : occupancy_of (set es i e) a ≡ announced e
  unfolding occupancy_of
  occupancy_of-here =
      rw (find-set, occupancy_of) (ap announced (get_or-set_self es i e no_entry in_range))

  occupancy_of-before : occupancy_of es a ≡ announced (get_or es i no_entry)
  unfolding occupancy_of
  occupancy_of-before = elim place [
    | inl h ↦ rw (h, occupancy_of) refl
    | inr h ↦
        let free = find_index-some is_free es i no_entry h.1 in
        let blank = (inv.each i).blank (==→eq _ _ free.1) in
        rw (h.0, occupancy_of) (sym (ap announced blank))
  ]

  occupancy_of-others :
      (b : ℕ) → b ≢ a → b ≢ unknown_short_addr → occupancy_of (set es i e) b ≡ occupancy_of es b
  unfolding occupancy_of
  occupancy_of-others b ne device =
      rw (search, occupancy_of)
        (elim (Option-cases (find_index (has_addr b) es)) [
          | inl h ↦ rw (h, occupancy_of) refl
          | inr (k, h) ↦
              let hit = find_index-some (has_addr b) es k no_entry h in
              rw (h, occupancy_of)
                (ap announced (get_or-set_ne es i e k no_entry (λ ik. ground (arith, hit.1, old))))
        ])
    where
      old : (has_addr b (get_or es i no_entry)) ≡ false
      old = elim place [
        | inl h ↦ ground (arith, find_index-some (has_addr a) es i no_entry h)
        | inr h ↦ ground (arith, find_index-some is_free es i no_entry h.1)
      ]

      search : find_index (has_addr b) (set es i e) ≡ find_index (has_addr b) es
      search =
          find_index-cong (has_addr b) (set es i e) es no_entry (length-set es i e)
            (λ j lt. ground (arith, get_or-set es i e j no_entry, old))

-- The occupancy that an event announces: 1, or 0.
abbrev pub occupied : CoreEvent → Bool
occupied event = elim event.telemetry_i32 [ pos n ↦ not (n == 0) | negsuc n ↦ true ]

event_value :
    (a now_ms : ℕ) (raw : Bool) (e : Entry) (event : CoreEvent)
    → some (occupancy_event a now_ms e) ≡ some event
    → announced e ≡ some raw
    → occupied event ≡ raw
event_value a now_ms raw e event h k =
    let value : e.occupancy_stable ≡ raw = ground (arith, k) in
    let same : occupancy_event a now_ms e ≡ event = cc in
    sym (ap (λ (x : CoreEvent). occupied x) same) ∙ rw value (ground arith)

-- What one report does to what was announced.
record Announces (es es' : List Entry) (a : ℕ) (raw : Bool) (out : Option CoreEvent) : Type 0 where
  quiet : out ≡ Option.none → occupancy_of es' a ≡ occupancy_of es a
  news :
      (event : CoreEvent)
      → out ≡ some event
      → (event.device_short_addr ≡ a)
        × (occupied event ≡ raw)
        × (occupancy_of es a ≢ some raw)
        × (occupancy_of es' a ≡ some raw)
  others : (b : ℕ) → b ≢ a → b ≢ unknown_short_addr → occupancy_of es' b ≡ occupancy_of es b

normalize-Announces :
    (es : List Entry) (a : ℕ) (raw : Bool) (now_ms : ℕ) (policy : OccupancyPolicy)
    → Inv es
    → let (es', out) = normalize_occupancy_report es a raw now_ms policy in
      Announces es es' a raw out
unfolding normalize_occupancy_report
normalize-Announces es a raw now_ms policy inv = elim (Bool-cases (valid_short_addr a)) [
  | inr h ↦ rw h unchanged
  | inl h ↦ rw h (elim (Option-cases (index_or_free es a)) [
    | inl e ↦ rw (e, normalize_occupancy_report) unchanged
    | inr (i, e) ↦ rw (e, normalize_occupancy_report) (stored i (index_or_free-IsPlace es a i e) h)
  ])
]
  where
    unchanged : Announces es es a raw Option.none
    unchanged = record { quiet = λ e. refl; news = λ event e. cc; others = λ b ne d. refl }

    stored :
        (i : ℕ)
        → IsPlace es a i
        → valid_short_addr a ≡ true
        → let (e, emit) =
            filter raw now_ms policy (record (get_or es i no_entry) { short_addr = a }) in
          Announces es
            (set es i e)
            a
            raw
            (if emit then some (occupancy_event a now_ms e) else Option.none)
    stored i place valid =
        let x = record (get_or es i no_entry) { short_addr = a } in
        let f = filter raw now_ms policy x in
        let same = (filter-same raw now_ms policy x).0 in
        let here = occupancy_of-here es inv a i f.0 place valid same in
        let before = occupancy_of-before es inv a i f.0 place valid same in
        let others = occupancy_of-others es inv a i f.0 place valid same in
        elim (Bool-cases f.1) [
          | inr quiet ↦ rw quiet (record {
            quiet = λ e. here ∙ filter-quiet raw now_ms policy x quiet ∙ sym before;
            news = λ event e. cc;
            others = others;
          })
          | inl emit ↦
              let (new, now_known) = filter-emits raw now_ms policy x emit in
              rw emit (record {
                quiet = λ e. cc;
                news = λ event e. (
                  ground (arith, e),
                  event_value a now_ms raw f.0 event e now_known,
                  rw before new,
                  here ∙ now_known,
                );
                others = others;
              })
        ]

pub record Report : Type 0 where
  pub short_addr : ℕ
  pub occupied_raw : Bool
  pub now_ms : ℕ
  pub policy : OccupancyPolicy

-- The events for the reports of any devices, in their order.
pub run : List Entry → List Report → List CoreEvent
run es [] = []
run es (r ∷ reports) =
    let (es', out) = normalize_occupancy_report es r.short_addr r.occupied_raw r.now_ms r.policy in
    elim out [ Option.none ↦ run es' reports | some event ↦ event ∷ run es' reports ]

-- Each event of the device announces what was not announced last.
pub Alternates : ℕ → Option Bool → List CoreEvent → Type 0
Alternates a last [] = Unit {0}
Alternates a last (event ∷ events) =
    if event.device_short_addr == a
    then (last ≢ some (occupied event)) × Alternates a (some (occupied event)) events
    else Alternates a last events

-- Under the invariant of the table, and whatever reports come in, of any devices, at any times
-- and under any policies, no two occupancy events of a device that follow one another announce
-- the same value, and the first of them is not the value that was announced last.
pub run-Alternates :
    (es : List Entry) (reports : List Report) (a : ℕ)
    → Inv es
    → a ≢ unknown_short_addr
    → Alternates a (occupancy_of es a) (run es reports)
unfolding run Alternates
run-Alternates es [] a inv device = tt
run-Alternates es (r ∷ reports) a inv device =
    let next = normalize_occupancy_report es r.short_addr r.occupied_raw r.now_ms r.policy in
    let step = normalize-Announces es r.short_addr r.occupied_raw r.now_ms r.policy inv in
    let rest =
      run-Alternates next.0 reports a
        (normalize-Inv es inv r.short_addr r.occupied_raw r.now_ms r.policy) device in
    elim (Option-cases next.1) [
      | inl h ↦
          let kept : occupancy_of next.0 a ≡ occupancy_of es a = elim (ℕ_discrete r.short_addr a) [
            | yes e ↦ subst (λ b. occupancy_of next.0 b ≡ occupancy_of es b) e (step.quiet h)
            | no ne ↦ step.others a (λ e. ne (sym e)) device
          ] in
          rw (h, run) (subst (λ o. Alternates a o (run next.0 reports)) kept rest)
      | inr (event, h) ↦
          let news = step.news event h in
          rw (h, run)
            (elim (ℕ_discrete r.short_addr a) [
              | yes e ↦
                  let own : (event.device_short_addr == a) ≡ true = ground (arith, news.0) in
                  let after : occupancy_of next.0 a ≡ some (occupied event) =
                    subst (λ b. occupancy_of next.0 b ≡ some (occupied event)) e
                      (news.3 ∙ ap some (sym news.1)) in
                  let new : occupancy_of es a ≢ some (occupied event) =
                    subst (λ b. occupancy_of es b ≢ some (occupied event)) e
                      (λ old. news.2 (old ∙ ap some news.1)) in
                  rw own (new, subst (λ o. Alternates a o (run next.0 reports)) after rest)
              | no ne ↦
                  let foreign : (event.device_short_addr == a) ≡ false = ground (arith, news.0) in
                  let kept = step.others a (λ e. ne (sym e)) device in
                  rw foreign (subst (λ o. Alternates a o (run next.0 reports)) kept rest)
            ])
    ]
