-- ===== src/Client/Queue/Lost.antt =====
-- A connection of src/client.rs that has lost a reply is not used again.
use tekes_memory.Prelude.{
  if-elim, ◌≡◌, refl, ℤ, Bool, true, false, not, le_int, ◌&&◌, List, [], ◌∷◌,
}
use tekes_memory.Common.{Result, err, unavailable}
use tekes_memory.Client.Endpoint.{Client}
use tekes_memory.Client.Queue.{
  Command, Outcome, received, dropped, Reply, replied, failed, late, request, reset_deadline,
}

-- What a caller does with its client: a request at a time, or a new deadline.
pub data Use : Type 0 where
  asks : ℤ → (Command → Outcome) → Command → Use
  extends : ℤ → ℤ → Use

unfoldable pub use_once : Client → Use → Client
unfolding request reset_deadline
use_once c (asks now serve m) = (request serve now c m).1
use_once c (extends now timeout) = reset_deadline now timeout c

unfoldable pub use_all : Client → List Use → Client
unfolding use_once
use_all c [] = c
use_all c (u ∷ us) = use_all (use_once c u) us

-- Whether a command is still answered.
abbrev pub is_usable : Client → Bool
is_usable c = c.sending && c.running

-- Nothing is answered, now or later.
abbrev Refuses : Result Reply × Client → Type 0
Refuses (r, c) = (r ≡ err unavailable) × (is_usable c ≡ false)

and_false : (b : Bool) → (b && false) ≡ false
and_false true = refl
and_false false = refl

received-Refuses :
    (c : Client) (o : Outcome) → (received c o).0 ≡ err unavailable → Refuses (received c o)
received-Refuses c (replied r) h = absurd (cc)
received-Refuses c failed h = (refl, and_false c.sending)
received-Refuses c late h = (refl, refl)

dropped-Refuses : (c : Client) (o : Outcome) → c.running ≡ false → Refuses (dropped c o)
dropped-Refuses c (replied r) h = (refl, rw h (and_false c.sending))
dropped-Refuses c failed h = (refl, rw h (and_false c.sending))
dropped-Refuses c late h = (refl, refl)

both_true : (a b : Bool) → not a ≡ false → b ≡ true → (a && b) ≡ false → ⊥
both_true true true h k l = cc
both_true true false h k l = cc
both_true false b h k l = cc

sending_over : (a b : Bool) → not a ≡ true → (a && b) ≡ false
sending_over true b h = absurd (cc)
sending_over false b h = refl

request-Refuses :
    (serve : Command → Outcome) (now : ℤ) (c : Client) (m : Command)
    → is_usable c ≡ false
    → Refuses (request serve now c m)
unfolding request
request-Refuses serve now c m h =
    if-elim Refuses (not (le_int now c.deadline)) _ _ (λ e. (refl, h))
      (λ e.
        if-elim Refuses (not c.sending) _ _ (λ e1. (refl, h))
          (λ e1.
            if-elim Refuses c.running _ _ (λ e2. absurd (both_true c.sending c.running e1 e2 h))
              (λ e2. dropped-Refuses c (serve m) e2)))

use_all-unusable :
    (c : Client) (us : List Use) → is_usable c ≡ false → is_usable (use_all c us) ≡ false
unfolding use_all use_once reset_deadline
use_all-unusable c [] h = h
use_all-unusable c (asks now serve m ∷ us) h =
    use_all-unusable (request serve now c m).1 us (request-Refuses serve now c m h).1
use_all-unusable c (extends now timeout ∷ us) h =
    use_all-unusable (reset_deadline now timeout c) us h

-- What is left of a client that got `unavailable` in time.
abbrev LosesAt : ℤ → Client → Result Reply × Client → Type 0
LosesAt now c (r, c') = le_int now c.deadline ≡ true → r ≡ err unavailable → is_usable c' ≡ false

lost-unusable :
    (serve : Command → Outcome) (now : ℤ) (c : Client) (m : Command)
    → LosesAt now c (request serve now c m)
unfolding request
lost-unusable serve now c m =
    if-elim (LosesAt now c) (not (le_int now c.deadline)) _ _
      (λ e time lost. absurd (cc (rw time at e)))
      (λ e.
        if-elim (LosesAt now c) (not c.sending) _ _
          (λ e1 time lost. sending_over c.sending c.running e1)
          (λ e1.
            if-elim (LosesAt now c) c.running _ _
              (λ e2 time lost. (received-Refuses c (serve m) lost).1)
              (λ e2 time lost. (dropped-Refuses c (serve m) e2).1)))

-- A request that is made before the deadline and ends with `unavailable` is the last that the client
-- sends: whatever the client is asked or extended to afterwards, and whatever the service would
-- answer, every later request ends with `unavailable`.
pub lost_forever :
    (serve serve' : Command → Outcome) (now now' : ℤ) (c : Client) (m m' : Command) (us : List Use)
    → le_int now c.deadline ≡ true
    → (request serve now c m).0 ≡ err unavailable
    → (request serve' now' (use_all (request serve now c m).1 us) m').0 ≡ err unavailable
lost_forever serve serve' now now' c m m' us time lost =
    (request-Refuses serve' now' _ m'
      (use_all-unusable (request serve now c m).1 us (lost-unusable serve now c m time lost))).0
