-- ===== src/OrderGateway/PendingResponses.antt =====
-- order_gateway/pending_responses.hpp: requests that wait for a report. What a completion does is not
-- the list's matter, so a completion is logged: the waiter's id, and its report or a time-out.
use slick_sim.Prelude.{
  ℕ, ◌+◌, ◌≡◌, refl, Bool, true, false, ◌&&◌, List, [], ◌∷◌, ◌++◌, Option, none, some, arith, eqb,
  ltb, leb, if◌then◌else◌, Bool-cases, inl, inr,
}

-- A waiter's predicate over reports of a type `R`.
pub record Waiter (R : Type 0) : Type 0 where
  pub id : ℕ
  pub matches : R → Bool

pub record PendingResponses (R : Type 0) : Type 0 where
  pub waiters : List (Waiter R)
  pub next_id : ℕ
  -- What was completed, and what was abandoned, the last one first.
  pub completed : List (ℕ × Option R)
  pub abandoned : List ℕ

module _ {R : Type 0} where
  unfoldable pub no_responses : PendingResponses R
  no_responses = record { waiters = []; next_id = 0; completed = []; abandoned = [] }

  unfoldable pub add : (R → Bool) → PendingResponses R → PendingResponses R
  add matches p =
      let id = p.next_id + 1 in
      record p { next_id = id; waiters = p.waiters ++ (record { id = id; matches = matches } ∷ []) }

  -- The first waiter that matches, if there is one, and the list without it.
  unfoldable pub first_match : R → List (Waiter R) → Option ℕ × List (Waiter R)
  first_match response [] = (none, [])
  first_match response (w ∷ ws) =
      let (found, rest) = first_match response ws in
      if w.matches response then (some w.id, ws) else (found, w ∷ rest)

  unfoldable pub complete : Option ℕ → Option R → PendingResponses R → PendingResponses R
  complete none response p = p
  complete (some id) response p = record p { completed = (id, response) ∷ p.completed }

  unfoldable pub dispatch : R → PendingResponses R → PendingResponses R × Bool
  dispatch response p =
      let (found, rest) = first_match response p.waiters in
      let done = complete found (some response) (record p { waiters = rest }) in
      (done, elim found [ none ↦ false | some id ↦ true ])

  unfoldable pub waits : ℕ → List (Waiter R) → Bool
  waits id [] = false
  waits id (w ∷ ws) = if eqb w.id id then true else waits id ws

  unfoldable pub waiting : ℕ → PendingResponses R → Bool
  waiting id p = waits id p.waiters

  -- The first waiter of this id taken out.
  unfoldable pub take_out : ℕ → List (Waiter R) → List (Waiter R)
  take_out id [] = []
  take_out id (w ∷ ws) = if eqb w.id id then ws else (w ∷ take_out id ws)

  unfoldable pub expire : ℕ → PendingResponses R → PendingResponses R
  expire id p =
      if waits id p.waiters
      then complete (some id) none (record p { waiters = take_out id p.waiters })
      else p

  unfoldable pub abandon : ℕ → PendingResponses R → PendingResponses R
  abandon id p =
      if waits id p.waiters
      then record p { waiters = take_out id p.waiters; abandoned = id ∷ p.abandoned }
      else p

abbrev pub count_ids : ℕ → List ℕ → ℕ
count_ids id [] = 0
count_ids id (j ∷ js) = (if eqb j id then 1 else 0) + count_ids id js

-- 1 for an id that was handed out.
abbrev pub given_out : ℕ → ℕ → ℕ
given_out id next = if ltb 0 id && leb id next then 1 else 0

-- The calls that change the list.
pub data Call (R : Type 0) : Type 0 where
  adds : (R → Bool) → Call R
  dispatches : R → Call R
  expires : ℕ → Call R
  abandons : ℕ → Call R

module _ {R : Type 0} where
  unfoldable pub step : Call R → PendingResponses R → PendingResponses R
  step (adds matches) p = add matches p
  step (dispatches response) p = (dispatch response p).0
  step (expires id) p = expire id p
  step (abandons id) p = abandon id p

  unfoldable pub run : List (Call R) → PendingResponses R → PendingResponses R
  run [] p = p
  run (c ∷ cs) p = run cs (step c p)

  abbrev pub count_waiters : ℕ → List (Waiter R) → ℕ
  count_waiters id [] = 0
  count_waiters id (w ∷ ws) = (if eqb w.id id then 1 else 0) + count_waiters id ws

  abbrev pub count_completed : ℕ → List (ℕ × Option R) → ℕ
  count_completed id [] = 0
  count_completed id ((j, r) ∷ cs) = (if eqb j id then 1 else 0) + count_completed id cs

  -- How often an id occurs, as a waiter, as a completion or as an abandoned one.
  abbrev pub fates : ℕ → PendingResponses R → ℕ
  fates id p =
      count_waiters id p.waiters + count_completed id p.completed + count_ids id p.abandoned

  abbrev IsAccounted : PendingResponses R → Type 0
  IsAccounted p = (id : ℕ) → fates id p ≡ given_out id p.next_id

  count_waiters-append :
      (id : ℕ) (ws : List (Waiter R)) (w : Waiter R)
      → count_waiters id (ws ++ (w ∷ [])) ≡ count_waiters id ws + (if eqb w.id id then 1 else 0)
  count_waiters-append id [] w = omega arith
  count_waiters-append id (v ∷ ws) w = let more = count_waiters-append id ws w in omega arith

  count_waiters-take_out :
      (id j : ℕ) (ws : List (Waiter R))
      → waits j ws ≡ true
      → count_waiters id (take_out j ws) + (if eqb j id then 1 else 0) ≡ count_waiters id ws
  unfolding waits take_out
  count_waiters-take_out id j [] h = ground arith
  count_waiters-take_out id j (w ∷ ws) h = elim (Bool-cases (eqb w.id j)) [
    | inl e ↦ rw e (ground arith)
    | inr e ↦ (let more = count_waiters-take_out id j ws (rw e at h) in rw e (omega arith))
  ]

  -- What `first_match` finds is the waiter that it takes out.
  abbrev Found : ℕ → Option ℕ → List (Waiter R) → List (Waiter R) → Type 0
  Found id none rest ws = count_waiters id rest ≡ count_waiters id ws
  Found id (some j) rest ws =
      count_waiters id rest + (if eqb j id then 1 else 0) ≡ count_waiters id ws

  first_match-Found :
      (id : ℕ) (response : R) (ws : List (Waiter R))
      → let (found, rest) = first_match response ws in Found id found rest ws
  unfolding first_match
  first_match-Found id response [] = refl
  first_match-Found id response (w ∷ ws) = elim (Bool-cases (w.matches response)) [
    | inl e ↦ rw e (omega arith)
    | inr e ↦ rw e (
        keep (first_match response ws).0 (first_match response ws).1
          (first_match-Found id response ws))
  ]
    where
      keep :
          (found : Option ℕ) (rest : List (Waiter R))
          → Found id found rest ws
          → Found id found (w ∷ rest) (w ∷ ws)
      keep none rest f = omega arith
      keep (some j) rest f = omega arith

  complete-IsAccounted :
      (p : PendingResponses R) (found : Option ℕ) (rest : List (Waiter R)) (response : Option R)
      → IsAccounted p
      → ((id : ℕ) → Found id found rest p.waiters)
      → IsAccounted (complete found response (record p { waiters = rest }))
  unfolding complete
  complete-IsAccounted p none rest response a f id =
      let before = a id in let same = f id in omega arith
  complete-IsAccounted p (some j) rest response a f id =
      let before = a id in let same = f id in omega arith

  step-IsAccounted : (c : Call R) (p : PendingResponses R) → IsAccounted p → IsAccounted (step c p)
  unfolding step add dispatch expire abandon
  step-IsAccounted (adds matches) p a = λ id.
      (let before = a id in
        let more =
          count_waiters-append id p.waiters (record { id = p.next_id + 1; matches = matches }) in
        ground (arith, before, more))
  step-IsAccounted (dispatches response) p a =
      complete-IsAccounted p (first_match response p.waiters).0 (first_match response p.waiters).1
        (some response) a λ id. first_match-Found id response p.waiters
  step-IsAccounted (expires j) p a = elim (Bool-cases (waits j p.waiters)) [
    | inl e ↦ rw e (
        complete-IsAccounted p (some j) (take_out j p.waiters) none a
          λ id. count_waiters-take_out id j p.waiters e)
    | inr e ↦ rw e a
  ]
  step-IsAccounted (abandons j) p a = elim (Bool-cases (waits j p.waiters)) [
    | inl e ↦ rw e (λ id.
        (let before = a id in let less = count_waiters-take_out id j p.waiters e in omega arith))
    | inr e ↦ rw e a
  ]

  run-IsAccounted :
      (cs : List (Call R)) (p : PendingResponses R) → IsAccounted p → IsAccounted (run cs p)
  unfolding run
  run-IsAccounted [] p a = a
  run-IsAccounted (c ∷ cs) p a = run-IsAccounted cs (step c p) (step-IsAccounted c p a)

  -- After any calls on an empty list, an id that was handed out is exactly one of waiting, completed
  -- once, or abandoned once, and an id that was not handed out is none of them.
  pub fates-run :
      (cs : List (Call R)) (id : ℕ)
      → let p = run cs no_responses in fates id p ≡ given_out id p.next_id
  unfolding no_responses
  fates-run cs = run-IsAccounted cs no_responses λ id. ground arith
