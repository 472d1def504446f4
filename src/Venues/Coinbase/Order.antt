-- ===== src/Venues/Coinbase/Order.antt =====
-- The order in which queued events are dispatched.
use slick_sim.Prelude.{
  ℕ, ◌≤◌, ◌<◌, ◌⊎◌, eqb, ◌≡◌, refl, true, false, List, [], ◌∷◌, arith, All, Bool-cases, inl, inr,
}
use slick_sim.Venues.Coinbase.{EventType, Event, compare_types, event_compare, push_event}

-- No event has to wait for one that stands behind it.
abbrev pub InOrder : List Event → Type 0
InOrder [] = Unit {0}
InOrder (x ∷ xs) = All (λ y. event_compare x y ≡ false) xs × InOrder xs

types_trans :
    (a b c : EventType) (i j k : ℕ)
    → compare_types a b i j ≡ false
    → compare_types b c j k ≡ false
    → compare_types a c i k ≡ false
unfolding compare_types
types_trans EventType.trade EventType.trade EventType.trade i j k h l = ground arith
types_trans EventType.trade EventType.trade EventType.level_update i j k h l = refl
types_trans EventType.trade EventType.level_update EventType.trade i j k h l = cc
types_trans EventType.trade EventType.level_update EventType.level_update i j k h l = refl
types_trans EventType.level_update EventType.trade c i j k h l = cc
types_trans EventType.level_update EventType.level_update EventType.trade i j k h l = cc
types_trans EventType.level_update EventType.level_update EventType.level_update i j k h l =
    ground arith

pub types_turn :
    (a b : EventType) (i j : ℕ) → compare_types a b i j ≡ true → compare_types b a j i ≡ false
unfolding compare_types
types_turn EventType.trade EventType.trade i j h = ground arith
types_turn EventType.trade EventType.level_update i j h = cc
types_turn EventType.level_update EventType.trade i j h = refl
types_turn EventType.level_update EventType.level_update i j h = ground arith

compare_trans :
    (a b c : Event)
    → event_compare a b ≡ false
    → event_compare b c ≡ false
    → event_compare a c ≡ false
unfolding event_compare
compare_trans a b c h l =
    ground (arith, types_trans a.type b.type c.type a.sequence_id b.sequence_id c.sequence_id)

pub compare_turn : (a b : Event) → event_compare a b ≡ true → event_compare b a ≡ false
unfolding event_compare
compare_turn a b h = ground (arith, types_turn a.type b.type a.sequence_id b.sequence_id)

All-trans :
    (x y : Event) (zs : List Event)
    → event_compare x y ≡ false
    → All (λ z. event_compare y z ≡ false) zs
    → All (λ z. event_compare x z ≡ false) zs
All-trans x y [] h hs = tt
All-trans x y (z ∷ zs) h hs = (compare_trans x y z h hs.0, All-trans x y zs h hs.1)

All-push_event :
    (x e : Event) (ys : List Event)
    → event_compare x e ≡ false
    → All (λ y. event_compare x y ≡ false) ys
    → All (λ y. event_compare x y ≡ false) (push_event e ys)
unfolding push_event
All-push_event x e [] h hs = (h, tt)
All-push_event x e (y ∷ ys) h hs = elim (Bool-cases (event_compare e y)) [
  | inl after ↦ rw after (hs.0, All-push_event x e ys h hs.1)
  | inr before ↦ rw before (h, hs)
]

pub push_event-InOrder : (e : Event) (xs : List Event) → InOrder xs → InOrder (push_event e xs)
unfolding push_event
push_event-InOrder e [] h = (tt, tt)
push_event-InOrder e (x ∷ xs) h = elim (Bool-cases (event_compare e x)) [
  | inl after ↦
      rw after (All-push_event x e xs (compare_turn e x after) h.0, push_event-InOrder e xs h.1)
  | inr before ↦ rw before ((before, All-trans e x xs before h.0), h)
]

-- At one time a trade goes before a level update, and of two events of one type the later one goes first.
abbrev pub TypesBefore : EventType → EventType → (first second : ℕ) → Type 0
TypesBefore EventType.trade EventType.trade i j = j ≤ i
TypesBefore EventType.level_update EventType.level_update i j = j ≤ i
TypesBefore EventType.trade EventType.level_update i j = Unit
TypesBefore EventType.level_update EventType.trade i j = ⊥

-- The first event does not have to wait for the second one.
abbrev pub GoesBefore : Event → Event → Type 0
GoesBefore x y =
    (x.event_time < y.event_time)
    ⊎ ((x.event_time ≡ y.event_time) × TypesBefore x.type y.type x.sequence_id y.sequence_id)

-- Each event goes before those behind it.
abbrev pub IsDispatchOrder : List Event → Type 0
IsDispatchOrder [] = Unit {0}
IsDispatchOrder (x ∷ xs) = All (GoesBefore x) xs × IsDispatchOrder xs

types-before : (a b : EventType) (i j : ℕ) → compare_types a b i j ≡ false → TypesBefore a b i j
unfolding compare_types
types-before EventType.trade EventType.trade i j h = ground arith
types-before EventType.level_update EventType.level_update i j h = ground arith
types-before EventType.trade EventType.level_update i j h = tt
types-before EventType.level_update EventType.trade i j h = cc

before-types : (a b : EventType) (i j : ℕ) → TypesBefore a b i j → compare_types a b i j ≡ false
unfolding compare_types
before-types EventType.trade EventType.trade i j h = ground arith
before-types EventType.level_update EventType.level_update i j h = ground arith
before-types EventType.trade EventType.level_update i j h = refl
before-types EventType.level_update EventType.trade i j h = elim h [ ]

compare-before : (x y : Event) → event_compare x y ≡ false → GoesBefore x y
unfolding event_compare
compare-before x y h = elim (Bool-cases (eqb x.event_time y.event_time)) [
  | inl same ↦
      inr (ground arith, types-before x.type y.type x.sequence_id y.sequence_id (rw same at h))
  | inr apart ↦ inl (ground arith)
]

before-compare : (x y : Event) → GoesBefore x y → event_compare x y ≡ false
unfolding event_compare
before-compare x y (inl earlier) = ground arith
before-compare x y (inr (same, t)) =
    let is : eqb x.event_time y.event_time ≡ true = ground arith in
    rw is (before-types x.type y.type x.sequence_id y.sequence_id t)

All-compare :
    (P Q : Event → Type 0) → ((y : Event) → P y → Q y) → (ys : List Event) → All P ys → All Q ys
All-compare P Q f [] h = tt
All-compare P Q f (y ∷ ys) h = (f y h.0, All-compare P Q f ys h.1)

pub InOrder-dispatch : (xs : List Event) → InOrder xs → IsDispatchOrder xs
InOrder-dispatch [] h = tt
InOrder-dispatch (x ∷ xs) h = (All-compare _ _ (compare-before x) xs h.0, InOrder-dispatch xs h.1)

pub dispatch-InOrder : (xs : List Event) → IsDispatchOrder xs → InOrder xs
dispatch-InOrder [] h = tt
dispatch-InOrder (x ∷ xs) h = (All-compare _ _ (before-compare x) xs h.0, dispatch-InOrder xs h.1)
