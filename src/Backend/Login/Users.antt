-- ===== src/Backend/Login/Users.antt =====
-- How the sign-in finds the row of a user (backend/src/claw_api/auth/magic_link.py).
use claw_compute.Prelude.{
  ◌≡◌, refl, Option, none, some, List, [], ◌∷◌, ◌++◌, find, String, false, ◌==◌, arith, eq_iff,
  eq_refl,
}
use claw_compute.Backend.Models.{User}
use claw_compute.Backend.Login.{user_for}

-- No two rows share an id.
abbrev pub IsKeyed : List User → Type 0
IsKeyed [] = Unit
IsKeyed (u ∷ users) = (find (λ v. v.id == u.id) users ≡ none) × IsKeyed users

find-absent :
    (id : String) (users : List User) (u : User) (email : String)
    → find (λ v. v.id == id) users ≡ none
    → find (λ v. v.email == email) users ≡ some u
    → (u.id == id) ≡ false
find-absent id [] u email h k = ground arith
find-absent id (v ∷ users) u email h k = grind (arith, find-absent id users u email)

-- The row that an address leads to is the row of its id.
find-id :
    (users : List User) (u : User) (email : String)
    → IsKeyed users
    → find (λ v. v.email == email) users ≡ some u
    → find (λ v. v.id == u.id) users ≡ some u
find-id [] u email h k = ground arith
find-id (v ∷ users) u email h k = ground (
  arith,
  find-id users u email h.1,
  find-absent v.id users u email h.0,
  eq_iff v.id u.id,
  eq_iff u.id v.id,
  eq_refl v.id,
)

find-append :
    (id : String) (users : List User) (u : User)
    → find (λ v. v.id == id) users ≡ none
    → u.id ≡ id
    → find (λ v. v.id == id) (users ++ (u ∷ [])) ≡ some u
find-append id [] u h e = grind (arith, eq_iff)
find-append id (v ∷ users) u h e = ground (arith, find-append id users u)

pub user_for-find :
    (email new_id : String) (users : List User) (o : Option User)
    → find (λ u. u.email == email) users ≡ o
    → IsKeyed users
    → find (λ u. u.id == new_id) users ≡ none
    → find (λ u. u.id == (user_for email new_id users).0.id) (user_for email new_id users).1
      ≡ some (user_for email new_id users).0
user_for-find email new_id users (some u) h keyed fresh =
    rw (h, user_for) (find-id users u email keyed h)
user_for-find email new_id users none h keyed fresh =
    rw (h, user_for)
      (find-append new_id users (record { id = new_id; email = email; wallet_address = none }) fresh
        refl)

find-email :
    (email : String) (users : List User) (u : User)
    → find (λ v. v.email == email) users ≡ some u
    → u.email ≡ email
find-email email [] u h = ground arith
find-email email (v ∷ users) u h = ground (arith, find-email email users u, eq_iff v.email email)

pub user_for-email :
    (email new_id : String) (users : List User) (o : Option User)
    → find (λ u. u.email == email) users ≡ o
    → (user_for email new_id users).0.email ≡ email
user_for-email email new_id users (some u) h = rw (h, user_for) (find-email email users u h)
user_for-email email new_id users none h = rw (h, user_for)
