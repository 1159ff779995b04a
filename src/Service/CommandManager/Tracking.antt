-- ===== src/Service/CommandManager/Tracking.antt =====
-- components/service/command_manager.cpp: the tracked commands, of which each waits in the dispatcher.
use zigbee_gateway_v.Common.{
  ℕ, ◌<◌, ◌≡◌, sym, ap, ◌∙◌, ◌≢◌, true, ◌&&◌, Option-cases, Bool-cases, inl, inr, none, some, List,
  arith, ltb, ◌==◌, ==→eq, and_true, length, get_or, get_or-set, set, find_index-some,
  find_index-none, get_or-ge, dec_lt,
}
use zigbee_gateway_v.Core.Events.{no_correlation_id}
use zigbee_gateway_v.Core.Commands.{CoreCommand}
use zigbee_gateway_v.Service.CommandManager.{
  TrackedCommand, no_tracked, tracks, is_vacant, find_tracked_command, find_or_allocate,
  release_tracked_command,
}

-- Every tracked command has an id and satisfies `P`, and no two have the same id.
pub record AllTracked (P : CoreCommand → Type 0) (ts : List TrackedCommand) : Type 0 where
  pub each :
      (i : ℕ)
      → (get_or ts i no_tracked).in_use ≡ true
      → ((get_or ts i no_tracked).command.correlation_id ≢ no_correlation_id)
        × P (get_or ts i no_tracked).command
  pub unique :
      (i j : ℕ)
      → i ≢ j
      → (get_or ts i no_tracked).in_use ≡ true
      → (get_or ts j no_tracked).in_use ≡ true
      → (get_or ts i no_tracked).command.correlation_id
        ≢ (get_or ts j no_tracked).command.correlation_id

not_tracked : no_tracked.in_use ≢ true
not_tracked v = cc

pub find_tracked-found :
    (ts : List TrackedCommand) (id i : ℕ)
    → find_tracked_command ts id ≡ some i
    → (i < length ts)
      × ((get_or ts i no_tracked).in_use ≡ true)
      × ((get_or ts i no_tracked).command.correlation_id ≡ id)
unfolding find_tracked_command
find_tracked-found ts id i = elim (Bool-cases (id == no_correlation_id)) [
  | inl z ↦ rw z (λ h. cc)
  | inr z ↦ rw z (λ h.
      let (lt, hit) = find_index-some (tracks id) ts i no_tracked h in
      let (u, e) = and_true _ _ hit in (lt, u, ==→eq _ _ e))
]

pub find_tracked-missing :
    (ts : List TrackedCommand) (id i : ℕ)
    → find_tracked_command ts id ≡ none
    → id ≢ no_correlation_id
    → (get_or ts i no_tracked).in_use ≡ true
    → (get_or ts i no_tracked).command.correlation_id ≢ id
unfolding find_tracked_command
find_tracked-missing ts id i = elim (Bool-cases (id == no_correlation_id)) [
  | inl z ↦ rw z (λ h nz u e. nz (==→eq _ _ z))
  | inr z ↦ rw z (λ h nz u e. elim (dec_lt i (length ts)) [
    | yes lt ↦ ground (arith, find_index-none (tracks id) ts i no_tracked h lt, u, e)
    | no ge ↦
        not_tracked (
          sym (ap (λ (t : TrackedCommand). t.in_use) (get_or-ge ts i no_tracked (omega arith))) ∙ u)
  ])
]

-- The place for an id is its own, or a vacant one, and no other place holds the id.
pub find_or_allocate-place :
    (ts : List TrackedCommand) (id i : ℕ)
    → find_or_allocate ts id ≡ some i
    → id ≢ no_correlation_id
    → ((j k : ℕ)
        → j ≢ k
        → (get_or ts j no_tracked).in_use ≡ true
        → (get_or ts k no_tracked).in_use ≡ true
        → (get_or ts j no_tracked).command.correlation_id
          ≢ (get_or ts k no_tracked).command.correlation_id)
    → (i < length ts)
      × ((j : ℕ)
          → j ≢ i
          → (get_or ts j no_tracked).in_use ≡ true
          → (get_or ts j no_tracked).command.correlation_id ≢ id)
unfolding find_or_allocate
find_or_allocate-place ts id i = elim (Option-cases (find_tracked_command ts id)) [
  | inl h ↦
      rw (h, find_or_allocate)
        (λ e nz unique. (
          (find_index-some is_vacant ts i no_tracked e).0,
          λ j ne u. find_tracked-missing ts id j h nz u,
        ))
  | inr (k, h) ↦
      rw (h, find_or_allocate)
        (λ e nz unique.
          let (lt, u, same) = find_tracked-found ts id i (h ∙ e) in
          (lt, λ j ne v own. unique j i ne v u (own ∙ sym same)))
]

module _ (P Q : CoreCommand → Type 0) (ts : List TrackedCommand) (all : AllTracked P ts) where
  pub AllTracked-mono : ((c : CoreCommand) → P c → Q c) → AllTracked Q ts
  AllTracked-mono f = record {
    each = λ i u. ((all.each i u).0, f _ (all.each i u).1);
    unique = all.unique;
  }

  -- A place is written.
  pub AllTracked-set :
      (i : ℕ) (t : TrackedCommand)
      → i < length ts
      → (t.in_use ≡ true
          → (t.command.correlation_id ≢ no_correlation_id)
            × Q t.command
            × ((j : ℕ)
                → j ≢ i
                → (get_or ts j no_tracked).in_use ≡ true
                → (get_or ts j no_tracked).command.correlation_id ≢ t.command.correlation_id))
      → ((j : ℕ)
          → j ≢ i
          → (get_or ts j no_tracked).in_use ≡ true
          → P (get_or ts j no_tracked).command
          → Q (get_or ts j no_tracked).command)
      → AllTracked Q (set ts i t)
  AllTracked-set i t lt ok keep = record {
    each = λ j. elim (Bool-cases ((i == j) && ltb i (length ts))) [
      | inl h ↦ rw (get_or-set ts i t j no_tracked, h) (λ u. ((ok u).0, (ok u).1))
      | inr h ↦
          rw (get_or-set ts i t j no_tracked, h)
            (λ u. ((all.each j u).0, keep j (ground (arith, h, lt)) u (all.each j u).1))
    ];
    unique = λ j k ne. elim (Bool-cases ((i == j) && ltb i (length ts))) [
      | inl h ↦ elim (Bool-cases ((i == k) && ltb i (length ts))) [
        | inl l ↦ absurd (ne (ground (arith, h, l)))
        | inr l ↦
            rw (get_or-set ts i t j no_tracked, get_or-set ts i t k no_tracked, h, l)
              (λ u v e. (ok u).2 k (ground (arith, l, lt)) v (sym e))
      ]
      | inr h ↦ elim (Bool-cases ((i == k) && ltb i (length ts))) [
        | inl l ↦
            rw (get_or-set ts i t j no_tracked, get_or-set ts i t k no_tracked, h, l)
              (λ u v e. (ok v).2 j (ground (arith, h, lt)) u e)
        | inr l ↦
            rw (get_or-set ts i t j no_tracked, get_or-set ts i t k no_tracked, h, l)
              (λ u v. all.unique j k ne u v)
      ]
    ];
  }

  -- The release of an id leaves the other ones.
  pub AllTracked-release :
      (id : ℕ)
      → ((c : CoreCommand) → c.correlation_id ≢ id → P c → Q c)
      → AllTracked Q (release_tracked_command ts id)
  unfolding release_tracked_command
  AllTracked-release id keep = elim (Option-cases (find_tracked_command ts id)) [
    | inl h ↦
        rw (h, release_tracked_command)
          (record {
            each = λ i u. (
              (all.each i u).0,
              keep _ (λ e. find_tracked-missing ts id i h (λ z. (all.each i u).0 (e ∙ z)) u e)
                  (all.each i u).1,
            );
            unique = all.unique;
          })
    | inr (i, h) ↦
        let (lt, u, e) = find_tracked-found ts id i h in
        rw (h, release_tracked_command)
          (AllTracked-set i no_tracked lt (λ v. absurd (not_tracked v))
            (λ j ne v p. keep _ (λ same. all.unique j i ne v u (same ∙ sym e)) p))
  ]
