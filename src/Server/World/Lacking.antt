-- ===== src/Server/World/Lacking.antt =====
-- Requests and sessions of src/server.rs while one request takes a step: what it holds is put back.
use tekes_memory.Prelude.{
  ◌≡◌, refl, sym, ap, ◌∙◌, ℕ, zero, suc, ◌+◌, ℤ, String, List, [], ◌∷◌, Option, none, some, ◌==◌,
  Bool, true, false, not, select, length, length-append, map, arith, if◌then◌else◌,
}
use tekes_memory.Server.Http.{Response, Verdict, pass, reject}
use tekes_memory.Server.Guard.{Session, is_session}
use tekes_memory.Server.Finish.{Reply}
use tekes_memory.Server.State.{
  World, Phase, dispatched, Ticket, take_out, go_on, end_with, settle, is_holder, keep_sessions,
  remove_session, insert_session, mark_initialized,
}
use tekes_memory.Server.World.{bind_session, is_notice, is_success, commit, release}

-- The requests that have the gate and a permit.
abbrev pub holders : List Phase → ℕ
holders [] = 0
holders (f ∷ fs) = (if is_holder f then 1 else 0) + holders fs

-- What the semaphores count.
pub record Balanced (w : World) : Type 0 where
  pub slots_counted : w.slots + length w.requests ≡ 32
  pub permits_counted : w.session_slots + length w.sessions + holders w.requests ≡ 1024
  pub one_gate : holders w.requests ≡ (if w.gate then 1 else 0)

module _ {ℓ} {A : Type ℓ} where
  select_split :
      (f : A → Bool) (xs : List A)
      → length (select f xs) + length (select (λ x. not (f x)) xs) ≡ length xs
  unfolding select
  select_split f [] = refl
  select_split f (x ∷ xs) = ground (arith, select_split f xs)

  length-map : (f : A → A) (xs : List A) → length (map f xs) ≡ length xs
  length-map f [] = refl
  length-map f (x ∷ xs) = ap suc (length-map f xs)

-- What is left of a list when one of its requests is taken out.
abbrev pub Taken : List Phase → Option (Phase × List Phase) → Type 0
Taken fs none = Unit
Taken fs (some (f, rest)) =
    (length fs ≡ suc (length rest)) × (holders fs ≡ (if is_holder f then 1 else 0) + holders rest)

pub Taken-cons :
    (x : Phase) (xs : List Phase) (o : Option (Phase × List Phase))
    → Taken xs o
    → Taken (x ∷ xs) (elim o [ none ↦ none | some found ↦ some (found.0, x ∷ found.1) ])
Taken-cons x xs none h = tt
Taken-cons x xs (some (f, rest)) (n, k) = (ap suc n, omega (arith, k))

pub take_out-Taken : (i : ℕ) (fs : List Phase) → Taken fs (take_out i fs)
unfolding take_out
take_out-Taken i [] = tt
take_out-Taken zero (x ∷ xs) = (refl, refl)
take_out-Taken (suc i) (x ∷ xs) = Taken-cons x xs (take_out i xs) (take_out-Taken i xs)

-- The world while one of its requests takes a step: its slot and its permit, if it has one, are out.
pub record Lacking (b : Bool) (w : World) (rest : List Phase) : Type 0 where
  pub slots_left : w.slots + suc (length rest) ≡ 32
  pub permits_left :
      w.session_slots + length w.sessions + ((if b then 1 else 0) + holders rest) ≡ 1024
  pub gate_left : (if b then 1 else 0) + holders rest ≡ (if w.gate then 1 else 0)

pub Balanced-Lacking :
    (w : World) (f : Phase) (rest : List Phase)
    → Balanced w
    → Taken w.requests (some (f, rest))
    → Lacking (is_holder f) w rest
Balanced-Lacking w f rest h (n, k) = record {
  slots_left = omega (arith, h.slots_counted, n);
  permits_left = omega (arith, h.permits_counted, k);
  gate_left = sym k ∙ h.one_gate;
}

module _ (w : World) (rest : List Phase) where
  pub end_with-Balanced : (r : Response) → Lacking false w rest → Balanced (end_with w rest r).0
  end_with-Balanced r h = record {
    slots_counted = omega (arith, h.slots_left);
    permits_counted = omega (arith, h.permits_left);
    one_gate = omega (arith, h.gate_left);
  }

  pub go_on-Balanced : (f : Phase) → Lacking (is_holder f) w rest → Balanced (go_on w rest f).0
  go_on-Balanced f h = record {
    slots_counted = h.slots_left;
    permits_counted = h.permits_left;
    one_gate = h.gate_left;
  }

  pub settle-Balanced :
      (v : Verdict Phase)
      → Lacking false w rest
      → ((f : Phase) → v ≡ pass f → is_holder f ≡ false)
      → Balanced (settle w rest v).0
  settle-Balanced (reject r) h k = end_with-Balanced r h
  settle-Balanced (pass f) h k = go_on-Balanced f (rw (k f refl) h)

pub keep_sessions-Balanced :
    (f : String × Session → Bool) (w : World) → Balanced w → Balanced (keep_sessions f w)
unfolding keep_sessions
keep_sessions-Balanced f w h = record {
  slots_counted = h.slots_counted;
  permits_counted = omega (arith, h.permits_counted, select_split f w.sessions);
  one_gate = h.one_gate;
}

pub keep_sessions-Lacking :
    (f : String × Session → Bool) (w : World) (rest : List Phase)
    → Lacking false w rest
    → Lacking false (keep_sessions f w) rest
unfolding keep_sessions
keep_sessions-Lacking f w rest h = record {
  slots_left = h.slots_left;
  permits_left = omega (arith, h.permits_left, select_split f w.sessions);
  gate_left = h.gate_left;
}

pub mark_initialized-Lacking :
    (sid : String) (w : World) (rest : List Phase)
    → Lacking false w rest
    → Lacking false (mark_initialized sid w) rest
unfolding mark_initialized
mark_initialized-Lacking sid w rest h = record {
  slots_left = h.slots_left;
  permits_left = omega (arith, h.permits_left, length-map _ w.sessions);
  gate_left = h.gate_left;
}

alone : (gate : Bool) (n : ℕ) → 1 + n ≡ (if gate then 1 else 0) → n ≡ 0
alone true n h = omega (arith, h)
alone false n h = omega (arith, h)

-- A session that takes over the permit of its request.
pub insert_session-Lacking :
    (sid : String) (s : Session) (w : World) (rest : List Phase)
    → Lacking true w rest
    → Lacking false (insert_session sid s (record w { gate = false })) rest
unfolding insert_session remove_session keep_sessions
insert_session-Lacking sid s w rest h = record {
  slots_left = h.slots_left;
  permits_left = omega (
    arith,
    h.permits_left,
    select_split (λ x. not (is_session sid x)) w.sessions,
    length-append (select (λ x. not (is_session sid x)) w.sessions) ((sid, s) ∷ []),
  );
  gate_left = omega (arith, alone w.gate (holders rest) h.gate_left);
}

-- A request whose permit no session takes.
pub free_permit-Lacking :
    (w : World) (rest : List Phase)
    → Lacking true w rest
    → Lacking false (record w { gate = false; session_slots = w.session_slots + 1 }) rest
free_permit-Lacking w rest h = record {
  slots_left = h.slots_left;
  permits_left = omega (arith, h.permits_left);
  gate_left = omega (arith, alone w.gate (holders rest) h.gate_left);
}

pub release-Lacking :
    (t : Ticket) (b : Bool) (w : World) (rest : List Phase)
    → is_holder (dispatched t) ≡ b
    → Lacking b w rest
    → Lacking false (release t w) rest
release-Lacking t true w rest e h = rw e (free_permit-Lacking w rest h)
release-Lacking t false w rest e h = rw e h

pub bind_session-Lacking :
    (t : Ticket) (now : ℤ) (sid : Option String) (w : World) (rest : List Phase)
    → Lacking true w rest
    → Lacking false (bind_session t now sid (record w { gate = false })) rest
bind_session-Lacking t now none w rest h = free_permit-Lacking w rest h
bind_session-Lacking t now (some sid) w rest h = insert_session-Lacking sid _ w rest h

pub if-Lacking :
    (b : Bool) (w1 w2 : World) (rest : List Phase)
    → Lacking false w1 rest
    → Lacking false w2 rest
    → Lacking false (if b then w1 else w2) rest
if-Lacking true w1 w2 rest h k = h
if-Lacking false w1 w2 rest h k = k

pub commit-Lacking :
    (t : Ticket) (now : ℤ) (reply : Reply) (b : Bool) (w : World) (rest : List Phase)
    → is_holder (dispatched t) ≡ b
    → Lacking b w rest
    → Lacking false (commit t now reply w) rest
unfolding commit remove_session
commit-Lacking t now reply true w rest e h = rw e (bind_session-Lacking t now _ w rest h)
commit-Lacking t now reply false w rest e h = rw e (
    if-Lacking (is_notice t.message) _ _ rest
      (if-Lacking (is_success reply.status) _ _ rest (mark_initialized-Lacking t.sid w rest h) h)
      (if-Lacking (t.method == "DELETE") _ _ rest
        (if-Lacking (is_success reply.status) _ _ rest (keep_sessions-Lacking _ w rest h) h) h))
