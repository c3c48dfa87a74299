-- ===== src/Chat/Updates.antt =====
-- What an answer does to a list of messages: it touches the one with its id
-- (web/src/components/dashboard/ChatThread.tsx).
use claw_compute.Prelude.{String, true, some, List, [], ◌∷◌, ◌++◌, ◌≡◌, refl, arith}
use claw_compute.ApiTypes.{MessageOut}
use claw_compute.Actions.{SendMessageResult, sent, unsent}
use claw_compute.Chat.{has_id, replace, remove}
use claw_compute.Chat.Sends.{shown_as, Absent}

abbrev pub apply : String → SendMessageResult → List MessageOut → List MessageOut
apply id (sent m) = replace id m
apply id (unsent message) = remove id

-- An id that no message has changes nothing.
pub apply-Absent :
    (id : String) (r : SendMessageResult) (ms : List MessageOut) → Absent id ms → apply id r ms ≡ ms
unfolding replace remove
apply-Absent id (sent m) [] h = refl
apply-Absent id (sent m) (x ∷ ms) (p, h) = ground (arith, apply-Absent id (sent m) ms h)
apply-Absent id (unsent t) [] h = refl
apply-Absent id (unsent t) (x ∷ ms) (p, h) = ground (arith, apply-Absent id (unsent t) ms h)

pub apply-append :
    (id : String) (r : SendMessageResult) (xs ys : List MessageOut)
    → apply id r (xs ++ ys) ≡ apply id r xs ++ apply id r ys
unfolding replace remove
apply-append id (sent m) [] ys = refl
apply-append id (sent m) (x ∷ xs) ys = ground (arith, apply-append id (sent m) xs ys)
apply-append id (unsent t) [] ys = refl
apply-append id (unsent t) (x ∷ xs) ys = ground (arith, apply-append id (unsent t) xs ys)

pub apply_self :
    (id : String) (r : SendMessageResult) (m : MessageOut)
    → has_id id m ≡ true
    → apply id r (m ∷ []) ≡ shown_as m (some r)
unfolding replace remove
apply_self id (sent n) m h = ground arith
apply_self id (unsent t) m h = ground arith

pub Absent-append_left :
    (id : String) (xs ys : List MessageOut) → Absent id (xs ++ ys) → Absent id xs
Absent-append_left id [] ys h = tt
Absent-append_left id (x ∷ xs) ys (p, h) = (p, Absent-append_left id xs ys h)

pub Absent-append_right :
    (id : String) (xs ys : List MessageOut) → Absent id (xs ++ ys) → Absent id ys
Absent-append_right id [] ys h = h
Absent-append_right id (x ∷ xs) ys (p, h) = Absent-append_right id xs ys h
