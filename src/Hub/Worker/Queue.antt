-- ===== src/Hub/Worker/Queue.antt =====
-- The worker's queue in crates/instrument-hub/src/server.rs: nothing is lost or reordered on the way
-- in, the queue is bounded, and only a switch-off passes other events.
use mathlib.Core.List.{append_assoc}
use kohdalab_iv.Common.{
  ℕ, zero, suc, ◌+◌, ◌-◌, ◌≤◌, ◌≡◌, refl, ◌∙◌, ◌⊎◌, inl, inr, Bool, true, false, none, some, List,
  [], ◌∷◌, ◌++◌, arith, length, length-append, All, Bool-cases, Option-cases,
}
use kohdalab_iv.Hub.Sessions.{Sessions}
use kohdalab_iv.Hub.Worker.{
  Event, is_safety, remove_first, remove_head, select, drain, fill, queue_limit,
}

-- How an event is taken from the queue: it switches an output off and passes only events that do
-- not, or no event in the queue switches an output off and it is the oldest.
pub data Selected (sessions : Sessions) (pending : List Event) (e : Event) (rest : List Event)
    : Type 0 where
  urgent :
      (before after : List Event)
      → pending ≡ before ++ e ∷ after
      → rest ≡ before ++ after
      → All (λ f. is_safety sessions f ≡ false) before
      → is_safety sessions e ≡ true
      → Selected sessions pending e rest
  oldest :
      pending ≡ e ∷ rest
      → All (λ f. is_safety sessions f ≡ false) pending
      → Selected sessions pending e rest

module _ (p : Event → Bool) where
  remove_first-none : (es : List Event) → remove_first p es ≡ none → All (λ f. p f ≡ false) es
  unfolding remove_first
  remove_first-none [] h = tt
  remove_first-none (e ∷ es) h = ground (arith, remove_first-none es)

  remove_first-some :
      (es : List Event) (f : Event) (rest : List Event)
      → remove_first p es ≡ some (f, rest)
      → (before : List Event) × (after : List Event) × (es ≡ before ++ f ∷ after)
        × (rest ≡ before ++ after)
        × All (λ g. p g ≡ false) before
        × (p f ≡ true)
  unfolding remove_first
  remove_first-some [] f rest h = absurd (ground arith)
  remove_first-some (e ∷ es) f rest h = elim (Bool-cases (p e)) [
    | inl hit ↦ ([], es, ground arith, ground arith, tt, ground arith)
    | inr miss ↦ elim (Option-cases (remove_first p es)) [
      | inl none_left ↦ absurd (ground arith)
      | inr ((g, gs), found) ↦
          let (before, after, split, joined, calm, hot) = remove_first-some es g gs found in
          (
            e ∷ before,
            after,
            ground (arith, split),
            ground (arith, joined),
            (miss, calm),
            ground (arith, hot),
          )
    ]
  ]

-- The worker takes the first switch-off of a registered session if there is one in the queue, and
-- the oldest event otherwise; all other events stay, in their order. It takes none only from an
-- empty queue.
pub select-Selected :
    (sessions : Sessions) (pending : List Event)
    → ((select sessions pending ≡ none) × (pending ≡ []))
      ⊎ ((e : Event) × (rest : List Event) × (select sessions pending ≡ some (e, rest))
          × Selected sessions pending e rest)
unfolding select remove_head
select-Selected sessions pending = elim (Option-cases (remove_first (is_safety sessions) pending)) [
  | inl calm ↦ by_head pending (remove_first-none (is_safety sessions) pending calm) calm
  | inr ((e, rest), found) ↦
      let (before, after, split, joined, quiet, hot) =
        remove_first-some (is_safety sessions) pending e rest found in
      inr (e, rest, rw (found, select), urgent before after split joined quiet hot)
]
  where
    by_head :
        (es : List Event)
        → All (λ f. is_safety sessions f ≡ false) es
        → remove_first (is_safety sessions) es ≡ none
        → ((select sessions es ≡ none) × (es ≡ []))
          ⊎ ((e : Event) × (rest : List Event) × (select sessions es ≡ some (e, rest))
              × Selected sessions es e rest)
    by_head [] quiet calm = inl (rw (calm, select), refl)
    by_head (e ∷ es) quiet calm = inr (e, es, rw (calm, select), oldest refl quiet)

drain-order :
    (room : ℕ) (pending inbox : List Event)
    → (drain room pending inbox).0 ++ (drain room pending inbox).1 ≡ pending ++ inbox
unfolding drain
drain-order zero pending inbox = refl
drain-order (suc room) pending [] = refl
drain-order (suc room) pending (e ∷ inbox) =
    drain-order room (pending ++ (e ∷ [])) inbox ∙ append_assoc pending (e ∷ []) inbox

drain-length :
    (room : ℕ) (pending inbox : List Event)
    → length (drain room pending inbox).0 ≤ length pending + room
unfolding drain
drain-length zero pending inbox = omega arith
drain-length (suc room) pending [] = omega arith
drain-length (suc room) pending (e ∷ inbox) =
    omega (arith, drain-length room (pending ++ (e ∷ [])) inbox, length-append pending (e ∷ []))

-- Filling the queue from the inbox loses nothing and keeps the order, and a queue within the limit
-- of 64 events stays within it.
pub fill-bounded :
    (pending inbox : List Event)
    → length pending ≤ queue_limit
    → ((fill pending inbox).0 ++ (fill pending inbox).1 ≡ pending ++ inbox)
      × (length (fill pending inbox).0 ≤ queue_limit)
unfolding fill
fill-bounded [] [] h = (refl, h)
fill-bounded [] (e ∷ inbox) h =
    (drain-order 63 (e ∷ []) inbox, omega (arith, drain-length 63 (e ∷ []) inbox))
fill-bounded (p ∷ pending) inbox h =
    let room = queue_limit - length (p ∷ pending) in
    (drain-order room (p ∷ pending) inbox, omega (arith, drain-length room (p ∷ pending) inbox))
