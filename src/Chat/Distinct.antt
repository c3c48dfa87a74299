-- ===== src/Chat/Distinct.antt =====
-- No waiting submission shares its id with another message, and answers keep it so
-- (web/src/components/dashboard/ChatThread.tsx).
use mathlib.Core.Path.{subst, ◌≡⟨◌⟩◌, ◌∎}
use claw_compute.Prelude.{
  All-append, String, true, false, Option, none, some, List, [], ◌∷◌, ◌++◌, ◌≡◌, refl, arith, sym,
  ap, ◌∙◌, inl, inr, eq_iff,
}
use mathlib.Core.List.{append_assoc, append-nil}
use claw_compute.ApiTypes.{MessageOut}
use claw_compute.Actions.{SendMessageResult, sent, unsent}
use claw_compute.Chat.{has_id, replace, remove}
use claw_compute.Chat.Sends.{
  hits, Send, shown_as, shown, is_waiting, answered, Absent, Waits, Proper,
}
use claw_compute.Chat.Updates.{
  apply, apply-Absent, apply-append, apply_self, Absent-append_left, Absent-append_right,
}

-- The id of a submission that waits is that of one message only.
abbrev pub Distinct : List MessageOut → List Send → Type 0
Distinct before [] = Unit
Distinct before (s ∷ ss) =
    (is_waiting s.result ≡ true → Absent s.local.id (before ++ shown ss))
    × Distinct (before ++ shown_as s.local s.result) ss

hits_id :
    (id : String) (s : Send) → hits id s ≡ true → (is_waiting s.result ≡ true) × (s.local.id ≡ id)
hits_id id s h = ground (arith, eq_iff s.local.id id)

waiting-Absent :
    (id : String) (before : List MessageOut) (ss : List Send)
    → Distinct before ss
    → Waits id ss
    → Absent id before
waiting-Absent id before [] d w = absurd w
waiting-Absent id before (s ∷ ss) (own, d) (inl h) =
    let (waits, same) = hits_id id s h in
    subst (λ i. Absent i before) same (Absent-append_left s.local.id before (shown ss) (own waits))
waiting-Absent id before (s ∷ ss) (own, d) (inr (h, w)) =
    Absent-append_left id before (shown_as s.local s.result) (waiting-Absent id _ ss d w)

shown_as_waiting :
    (m : MessageOut) (o : Option SendMessageResult) → is_waiting o ≡ true → shown_as m o ≡ m ∷ []
shown_as_waiting m none h = refl
shown_as_waiting m (some r) h = cc

apply_here :
    (id : String) (r : SendMessageResult) (before : List MessageOut) (m : MessageOut)
    (rest : List MessageOut)
    → has_id id m ≡ true
    → Absent id (before ++ rest)
    → apply id r (before ++ (m ∷ [] ++ rest)) ≡ before ++ (shown_as m (some r) ++ rest)
apply_here id r before m rest h absent =
    apply id r (before ++ (m ∷ [] ++ rest))
    ≡⟨ apply-append id r before (m ∷ [] ++ rest) ⟩ apply id r before ++ apply id r (m ∷ [] ++ rest)
    ≡⟨ ap (λ l. l ++ apply id r (m ∷ [] ++ rest))
        (apply-Absent id r before (Absent-append_left id before rest absent)) ⟩
      before ++ apply id r (m ∷ [] ++ rest)
    ≡⟨ ap (λ l. before ++ l) (apply-append id r (m ∷ []) rest) ⟩
      before ++ (apply id r (m ∷ []) ++ apply id r rest)
    ≡⟨ ap (λ l. before ++ (l ++ apply id r rest)) (apply_self id r m h) ⟩
      before ++ (shown_as m (some r) ++ apply id r rest)
    ≡⟨ ap (λ l. before ++ (shown_as m (some r) ++ l))
        (apply-Absent id r rest (Absent-append_right id before rest absent)) ⟩
      before ++ (shown_as m (some r) ++ rest) ∎

-- The code's update of the messages is the update of the history.
pub apply-shown :
    (id : String) (r : SendMessageResult) (before : List MessageOut) (ss : List Send)
    → Distinct before ss
    → Waits id ss
    → apply id r (before ++ shown ss) ≡ before ++ shown (answered id r ss)
apply-shown id r before [] d w = absurd w
apply-shown id r before (s ∷ ss) (own, d) (inl h) =
    let (waits, same) = hits_id id s h in
    rw (h, shown_as_waiting s.local s.result waits)
      (apply_here id r before s.local (shown ss) ((eq_iff s.local.id id).1 same)
        (subst (λ i. Absent i (before ++ shown ss)) same (own waits)))
apply-shown id r before (s ∷ ss) (own, d) (inr (h, w)) = rw h (
    apply id r (before ++ (shown_as s.local s.result ++ shown ss))
    ≡⟨ ap (apply id r) (sym (append_assoc before (shown_as s.local s.result) (shown ss))) ⟩
      apply id r ((before ++ shown_as s.local s.result) ++ shown ss)
    ≡⟨ apply-shown id r (before ++ shown_as s.local s.result) ss d w ⟩
      (before ++ shown_as s.local s.result) ++ shown (answered id r ss)
    ≡⟨ append_assoc before (shown_as s.local s.result) (shown (answered id r ss)) ⟩
      before ++ (shown_as s.local s.result ++ shown (answered id r ss)) ∎)

Absent-append :
    (id : String) (xs ys : List MessageOut) → Absent id xs → Absent id ys → Absent id (xs ++ ys)
Absent-append id = All-append (λ m. has_id id m ≡ false)

pub shown-append : (ss ts : List Send) → shown (ss ++ ts) ≡ shown ss ++ shown ts
shown-append [] ts = refl
shown-append (s ∷ ss) ts =
    ap (λ l. shown_as s.local s.result ++ l) (shown-append ss ts)
    ∙ sym (append_assoc (shown_as s.local s.result) (shown ss) (shown ts))

has_id_comm : (m n : MessageOut) → has_id m.id n ≡ false → has_id n.id m ≡ false
has_id_comm m n h = ground (arith, eq_iff n.id m.id, eq_iff m.id n.id)

-- A waiting submission with a fresh id may be added at the end.
pub Distinct-submit :
    (m : MessageOut) (before : List MessageOut) (ss : List Send)
    → Distinct before ss
    → Absent m.id (before ++ shown ss)
    → Distinct before (ss ++ (record { local = m; result = none } ∷ []))
Distinct-submit m before [] d h = (λ _. h, tt)
Distinct-submit m before (s ∷ ss) (own, d) h = (
  λ waits.
      let h' = rw (shown_as_waiting s.local s.result waits) at h in
      rw (shown-append ss, ← append_assoc)
        (Absent-append s.local.id (before ++ shown ss) (m ∷ []) (own waits)
          (has_id_comm m s.local (Absent-append_right m.id before (s.local ∷ shown ss) h').0, tt)),
  Distinct-submit m _ ss d (rw append_assoc h),
)

-- The result brings no message with the id.
abbrev Avoids : String → SendMessageResult → Type 0
Avoids i (sent m) = has_id i m ≡ false
Avoids i (unsent message) = Unit

Proper-head :
    (r : SendMessageResult) (s : Send) (ss : List Send)
    → Proper r (s ∷ ss)
    → is_waiting s.result ≡ true
    → Avoids s.local.id r
Proper-head (sent m) s ss (p, ps) waits = p waits
Proper-head (unsent message) s ss p waits = tt

Proper-tail : (r : SendMessageResult) (s : Send) (ss : List Send) → Proper r (s ∷ ss) → Proper r ss
Proper-tail (sent m) s ss (p, ps) = ps
Proper-tail (unsent message) s ss p = tt

Absent-apply :
    (i id : String) (r : SendMessageResult) (ms : List MessageOut)
    → Avoids i r
    → Absent i ms
    → Absent i (apply id r ms)
unfolding replace remove
Absent-apply i id (sent m) [] a h = tt
Absent-apply i id (sent m) (x ∷ ms) a (p, h) = (ground arith, Absent-apply i id (sent m) ms a h)
Absent-apply i id (unsent t) [] a h = tt
Absent-apply i id (unsent t) (x ∷ ms) a (p, h) = ground (arith, Absent-apply i id (unsent t) ms a h)

Absent-shown_as :
    (i : String) (m : MessageOut) (r : SendMessageResult)
    → Avoids i r
    → Absent i (shown_as m (some r))
Absent-shown_as i m (sent n) a = (a, tt)
Absent-shown_as i m (unsent t) a = tt

-- What stands before may change, as long as the ids that the result avoids stay absent.
Distinct-change :
    (r : SendMessageResult) (before before' : List MessageOut) (ss : List Send)
    → ((i : String) → Avoids i r → Absent i before → Absent i before')
    → Proper r ss
    → Distinct before ss
    → Distinct before' ss
Distinct-change r before before' [] keep p d = tt
Distinct-change r before before' (s ∷ ss) keep p (own, d) = (
  λ waits.
      Absent-append s.local.id before' (shown ss)
        (keep s.local.id (Proper-head r s ss p waits)
          (Absent-append_left s.local.id before (shown ss) (own waits)))
        (Absent-append_right s.local.id before (shown ss) (own waits)),
  Distinct-change r (before ++ shown_as s.local s.result) (before' ++ shown_as s.local s.result) ss
      (λ i a h.
        Absent-append i before' (shown_as s.local s.result)
          (keep i a (Absent-append_left i before (shown_as s.local s.result) h))
          (Absent-append_right i before (shown_as s.local s.result) h))
      (Proper-tail r s ss p) d,
)

Distinct-drop : (xs ys : List MessageOut) (ss : List Send) → Distinct (xs ++ ys) ss → Distinct ys ss
Distinct-drop xs ys [] d = tt
Distinct-drop xs ys (s ∷ ss) (own, d) = (
  λ waits. Absent-append_right s.local.id xs (ys ++ shown ss) (rw append_assoc at (own waits)),
  Distinct-drop xs (ys ++ shown_as s.local s.result) ss (rw append_assoc at d),
)

Distinct-from_nil :
    (before : List MessageOut) (ss : List Send) → Distinct before ss → Distinct [] ss
Distinct-from_nil before ss d = Distinct-drop before [] ss (rw append-nil d)

-- An answer keeps it, if the server's message has an id of its own.
pub Distinct-answer :
    (id : String) (r : SendMessageResult) (before : List MessageOut) (ss : List Send)
    → Distinct before ss
    → Waits id ss
    → Proper r ss
    → Distinct before (answered id r ss)
Distinct-answer id r before [] d w p = absurd w
Distinct-answer id r before (s ∷ ss) (own, d) (inl h) p = rw h (
  λ waits. absurd (cc),
  Distinct-change r _ (before ++ shown_as s.local (some r)) ss
      (λ i a absent.
        Absent-append i before (shown_as s.local (some r))
          (Absent-append_left i before (shown_as s.local s.result) absent)
          (Absent-shown_as i s.local r a))
      (Proper-tail r s ss p) d,
)
Distinct-answer id r before (s ∷ ss) (own, d) (inr (h, w)) p = rw h (
  λ waits.
      Absent-append s.local.id before (shown (answered id r ss))
        (Absent-append_left s.local.id before (shown ss) (own waits))
        (rw (apply-shown id r [] ss (Distinct-from_nil _ ss d) w) at (
          Absent-apply s.local.id id r (shown ss) (Proper-head r s ss p waits)
            (Absent-append_right s.local.id before (shown ss) (own waits)))),
  Distinct-answer id r (before ++ shown_as s.local s.result) ss d w (Proper-tail r s ss p),
)
