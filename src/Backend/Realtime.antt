-- ===== src/Backend/Realtime.antt =====
-- backend/src/claw_api/realtime.py: the queues through which the connections of the workers are fed.
-- A queue has a number here, by which `unregister` knows it; the connections run in one process.
use mathlib.Core.List.{append_assoc, append-nil}
use claw_compute.Prelude.{
  ℕ, ◌<◌, ◌≡◌, refl, not, ◌&&◌, List, [], ◌∷◌, ◌++◌, map, filter, length, take, ltb, eqb, String,
  ◌==◌, ◌<>◌, ◌-◌, if◌then◌else◌, arith, length-append, Bool-cases, inl, inr, zero, suc, ap, sym,
  ◌∙◌,
}

pub record Queue (M : Type 0) : Type 0 where
  pub number : ℕ
  pub channel : String
  pub items : List M

abbrev pub maxsize : ℕ
maxsize = 64

abbrev pub channel_for_worker : String → String
channel_for_worker worker_id = "worker:" <> worker_id

module _ {M : Type 0} where
  abbrev pub register : (channel : String) (number : ℕ) → List (Queue M) → List (Queue M)
  register channel number queues =
      queues ++ (record { number = number; channel = channel; items = [] } ∷ [])

  abbrev pub unregister : (channel : String) (number : ℕ) → List (Queue M) → List (Queue M)
  unregister channel number queues =
      filter (λ q. not (q.channel == channel && eqb q.number number)) queues

  -- `put_nowait`; a message for a full queue is dropped.
  abbrev pub put_nowait : M → Queue M → Queue M
  put_nowait message q =
      if ltb (length q.items) maxsize then record q { items = q.items ++ (message ∷ []) } else q

  abbrev pub offered : (channel : String) → M → Queue M → Queue M
  offered channel message q = if q.channel == channel then put_nowait message q else q

  abbrev pub publish : (channel : String) → M → List (Queue M) → List (Queue M)
  publish channel message queues = map (offered channel message) queues

  -- Messages that are published one after the other, each to its channel.
  unfoldable pub publish_all : List (String × M) → List (Queue M) → List (Queue M)
  publish_all [] queues = queues
  publish_all ((channel, message) ∷ rest) queues = publish_all rest (publish channel message queues)

  abbrev pub addressed : String → List (String × M) → List M
  addressed channel [] = []
  addressed channel ((c, message) ∷ rest) =
      if channel == c then message ∷ addressed channel rest else addressed channel rest

  -- A queue after the messages: those of its channel, in their order, as far as there is room.
  abbrev pub filled : List (String × M) → Queue M → Queue M
  filled messages q = record q {
    items = q.items ++ take (maxsize - length q.items) (addressed q.channel messages);
  }

  take-nil : (n : ℕ) → take n (◌++◌ {A = M} [] []) ≡ []
  take-nil zero = refl
  take-nil (suc n) = refl

  filled-none : (q : Queue M) → filled [] q ≡ q
  filled-none q =
      ap (λ items. record q { items = items })
        (ap (λ none_left. q.items ++ none_left) (take-nil (maxsize - length q.items))
          ∙ append-nil q.items)

  with_room :
      (items : List M) (m : M) (more : List M) (n : ℕ)
      → n ≡ maxsize - length items
      → length items < maxsize
      → (items ++ (m ∷ [])) ++ take (maxsize - length (items ++ (m ∷ []))) more
        ≡ items ++ take n (m ∷ more)
  with_room items m more zero e h = absurd (omega arith)
  with_room items m more (suc n) e h =
      let rest : maxsize - length (items ++ (m ∷ [])) ≡ n =
        omega (arith, length-append items (m ∷ [])) in
      rw rest (append_assoc items (m ∷ []) (take n more))

  without_room : (more other : List M) (n : ℕ) → n ≡ 0 → take n more ≡ take n other
  without_room more other zero e = refl
  without_room more other (suc n) e = absurd (omega arith)

  filled-offered :
      (c : String) (m : M) (rest : List (String × M)) (q : Queue M)
      → filled rest (offered c m q) ≡ filled ((c, m) ∷ rest) q
  filled-offered c m rest q = elim (Bool-cases (q.channel == c)) [
    | inl its ↦ elim (Bool-cases (ltb (length q.items) maxsize)) [
      | inl room ↦
          rw (its, room)
            (ap (λ items. record q { items = items })
              (with_room q.items m (addressed q.channel rest) (maxsize - length q.items) refl
                (ground arith)))
      | inr full ↦
          rw (its, full)
            (ap (λ left. record q { items = q.items ++ left })
              (without_room (addressed q.channel rest) (m ∷ addressed q.channel rest)
                (maxsize - length q.items) (ground arith)))
    ]
    | inr other ↦ rw other
  ]

  map-filled_none : (queues : List (Queue M)) → queues ≡ map (filled []) queues
  map-filled_none [] = refl
  map-filled_none (q ∷ queues) =
      ap (λ x. x ∷ queues) (sym (filled-none q))
      ∙ ap (λ qs. filled [] q ∷ qs) (map-filled_none queues)

  map-filled :
      (c : String) (m : M) (rest : List (String × M)) (queues : List (Queue M))
      → map (filled rest) (publish c m queues) ≡ map (filled ((c, m) ∷ rest)) queues
  map-filled c m rest [] = refl
  map-filled c m rest (q ∷ queues) =
      ap (λ x. x ∷ map (filled rest) (publish c m queues)) (filled-offered c m rest q)
      ∙ ap (λ qs. filled ((c, m) ∷ rest) q ∷ qs) (map-filled c m rest queues)

  -- Every queue gets the messages of its own channel and no others, in the order in which they were
  -- published; as long as nobody takes from it, those that come when it holds 64 are dropped.
  pub publish_all-eq-filled :
      (messages : List (String × M)) (queues : List (Queue M))
      → publish_all messages queues ≡ map (filled messages) queues
  unfolding publish_all
  publish_all-eq-filled [] queues = map-filled_none queues
  publish_all-eq-filled ((c, m) ∷ rest) queues =
      publish_all-eq-filled rest (publish c m queues) ∙ map-filled c m rest queues
