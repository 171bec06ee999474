-- ===== src/Client/Stdio/First.antt =====
-- The first message that the input loop of src/client.rs forwards.
use tekes_memory.Prelude.{
  ◌≡◌, ◌⊎◌, inl, inr, subst, refl, sym, ◌∙◌, ap, ℕ, String, List, [], ◌∷◌, ◌++◌, Option, none, some,
  Bool, true, false, not, ltb, length, nat_eq, if-elim, if◌then◌else◌,
}
use tekes_memory.Json.{Value}
use tekes_memory.Json.Access.{is_some}
use tekes_memory.Common.{Env, Error, Result, ok, err, unavailable, io_error, invalid_argument}
use tekes_memory.Common.Schema.{max_body}
use tekes_memory.Common.Envelope.{normalize_initialize, supported_rpc_id}
use tekes_memory.Common.Envelope.Method.{normalize_initialize-method}
use tekes_memory.Client.Stdio.{
  Sent, forwarded, protocol_error, Reader, new_reader, end_reader, announce, send_out,
  accept_request, accept_line, is_initialize, is_none, is_empty, id_error, Read, read_failed, chunk,
  take_byte, take_bytes, take_reads, decode_bytes,
}

-- The first message for the relay.
abbrev pub first_forwarded : List Sent → Option Value
first_forwarded [] = none
first_forwarded (forwarded v ∷ xs) = some v
first_forwarded (protocol_error v ∷ xs) = first_forwarded xs

-- The first message for the relay, where there is one, is an `initialize`.
abbrev Starts : List Sent → Type 0
Starts xs = (v : Value) → first_forwarded xs ≡ some v → is_initialize v ≡ true

-- Nothing is forwarded before an `initialize`, which is out once the reader is initialized.
record Opened (d : Reader) : Type 0 where
  silent : d.initialized ≡ false → first_forwarded d.sent ≡ none
  opens : Starts d.sent
  started : d.ended ≡ none → d.initialized ≡ true → is_some (first_forwarded d.sent) ≡ true

forward_more :
    (xs : List Sent) (u v : Value)
    → first_forwarded (xs ++ forwarded u ∷ []) ≡ some v
    → (first_forwarded xs ≡ some v) ⊎ ((first_forwarded xs ≡ none) × (u ≡ v))
forward_more [] u v h = inr (refl, cc)
forward_more (forwarded w ∷ xs) u v h = inl h
forward_more (protocol_error w ∷ xs) u v h = forward_more xs u v h

error_more :
    (xs : List Sent) (e : Value)
    → first_forwarded (xs ++ protocol_error e ∷ []) ≡ first_forwarded xs
error_more [] e = refl
error_more (forwarded w ∷ xs) e = refl
error_more (protocol_error w ∷ xs) e = error_more xs e

forward_some :
    (xs : List Sent) (u : Value) → is_some (first_forwarded (xs ++ forwarded u ∷ [])) ≡ true
forward_some [] u = refl
forward_some (forwarded w ∷ xs) u = refl
forward_some (protocol_error w ∷ xs) u = forward_some xs u

-- An `initialize`, or any message after one, is forwarded.
send_forward :
    (takes : List Sent → Sent → Bool) (u : Value) (e : Error) (d : Reader)
    → d.initialized ≡ true
    → (first_forwarded d.sent ≡ none → is_initialize u ≡ true)
    → Starts d.sent
    → Opened (send_out takes (forwarded u) e d)
send_forward takes u e d init fits h =
    if-elim Opened (takes d.sent (forwarded u)) _ _
      (λ t. record {
        silent = λ x. absurd (cc (rw init at x));
        opens = λ v x. elim (forward_more d.sent u v x) [
          | inl old ↦ h v old
          | inr (new, same) ↦ subst (λ y. is_initialize y ≡ true) same (fits new)
        ];
        started = λ x y. forward_some d.sent u;
      })
      (λ t. record {
        silent = λ x. absurd (cc (rw init at x));
        opens = h;
        started = λ x y. absurd (cc);
      })

-- The end of the reader sends nothing.
end-Opened : (r : Result (Unit {0})) (d : Reader) → Opened d → Opened (end_reader r d)
end-Opened r d h = record { silent = h.silent; opens = h.opens; started = λ x y. absurd (cc) }

announce-Opened : (d : Reader) → Opened d → Opened (announce d)
announce-Opened d h = record { silent = h.silent; opens = h.opens; started = h.started }

pending-Opened : (bytes : List ℕ) (d : Reader) → Opened d → Opened (record d { pending = bytes })
pending-Opened bytes d h = record { silent = h.silent; opens = h.opens; started = h.started }

send_error :
    (takes : List Sent → Sent → Bool) (x : Value) (e : Error) (d : Reader)
    → Opened d
    → Opened (send_out takes (protocol_error x) e d)
send_error takes x e d h =
    if-elim Opened (takes d.sent (protocol_error x)) _ _
      (λ t. record {
        silent = λ z. error_more d.sent x ∙ h.silent z;
        opens = λ v z. h.opens v (sym (error_more d.sent x) ∙ z);
        started = λ z y. ap is_some (error_more d.sent x) ∙ h.started z y;
      })
      (λ t. end-Opened (err e) d h)

no_first : (o : Option Value) → is_some o ≡ true → o ≡ none → ⊥
no_first (some v) h k = cc
no_first none h k = cc

accept_request-Opened :
    (takes : List Sent → Sent → Bool) (r : Value) (d : Reader)
    → d.ended ≡ none
    → Opened d
    → Opened (accept_request takes r d)
unfolding accept_request
accept_request-Opened takes r d running h =
    if-elim Opened (not (supported_rpc_id r)) _ _
      (λ e.
        let sent = send_error takes id_error unavailable d h in
        if-elim Opened (is_none (send_out takes (protocol_error id_error) unavailable d).ended) _ _
          (λ x. announce-Opened _ sent) (λ x. sent))
      (λ e.
        if-elim Opened d.initialized _ _
          (λ init.
            send_forward takes (normalize_initialize r) io_error d init
              (λ new. absurd (no_first _ (h.started running init) new)) h.opens)
          (λ fresh.
            if-elim Opened (is_initialize r) _ _
              (λ init.
                send_forward takes (normalize_initialize r) io_error
                  (announce (record d { initialized = true })) refl
                  (λ new. normalize_initialize-method r ∙ init) h.opens)
              (λ other. end-Opened (err invalid_argument) d h)))

accept_line-Opened :
    (takes : List Sent → Sent → Bool) (r : Result Value) (d : Reader)
    → d.ended ≡ none
    → Opened d
    → Opened (accept_line takes r d)
accept_line-Opened takes (err e) d running h = end-Opened (err e) d h
accept_line-Opened takes (ok r) d running h = accept_request-Opened takes r d running h

not_ended : (o : Option (Result (Unit {0}))) → is_some o ≡ false → o ≡ none
not_ended none h = refl
not_ended (some x) h = absurd (cc)

ended-Opened :
    (o : Option (Result (Unit {0}))) (d d' : Reader)
    → Opened d
    → Opened d'
    → Opened (elim o [ some x ↦ d | none ↦ d' ])
ended-Opened (some x) d d' h k = h
ended-Opened none d d' h k = k

new_reader-Opened : Opened new_reader
unfolding new_reader
new_reader-Opened = record {
  silent = λ h. refl;
  opens = λ v h. absurd (cc);
  started = λ h k. absurd (cc);
}

module _ (env : Env) (utf8 : List ℕ → Option String) (takes : List Sent → Sent → Bool) where
  take_byte-Opened : (b : ℕ) (d : Reader) → Opened d → Opened (take_byte env utf8 takes b d)
  unfolding take_byte
  take_byte-Opened b d h =
      let h' = pending-Opened (d.pending ++ b ∷ []) d h in
      if-elim Opened (is_some d.ended) _ _ (λ e. h)
        (λ running.
          if-elim Opened (ltb max_body (length (d.pending ++ b ∷ []))) _ _
            (λ e. end-Opened (err invalid_argument) _ h')
            (λ e.
              if-elim Opened (nat_eq b 10) _ _
                (λ t.
                  accept_line-Opened takes (decode_bytes env utf8 (d.pending ++ b ∷ [])) _
                    (not_ended d.ended running) h')
                (λ t. h')))

  take_bytes-Opened :
      (bs : List ℕ) (d : Reader) → Opened d → Opened (take_bytes env utf8 takes bs d)
  unfolding take_bytes
  take_bytes-Opened [] d h = h
  take_bytes-Opened (b ∷ bs) d h =
      take_bytes-Opened bs (take_byte env utf8 takes b d) (take_byte-Opened b d h)

  take_reads-Opened :
      (rs : List Read) (d : Reader) → Opened d → Opened (take_reads env utf8 takes rs d)
  unfolding take_reads
  take_reads-Opened [] d h = h
  take_reads-Opened (read_failed ∷ rs) d h =
      ended-Opened d.ended _ _ h (end-Opened (err io_error) d h)
  take_reads-Opened (chunk bs ∷ rs) d h = ended-Opened d.ended _ _ h (
      if-elim Opened (is_empty bs) _ _
        (λ e. end-Opened (if is_empty d.pending then ok tt else err invalid_argument) d h)
        (λ e. take_reads-Opened rs (take_bytes env utf8 takes bs d) (take_bytes-Opened bs d h)))

  -- Whatever standard input gives, in whatever portions, and whichever pipes are closed: the first
  -- message that the relay is sent is an `initialize`.
  pub opens_with_initialize :
      (reads : List Read) (v : Value)
      → first_forwarded (take_reads env utf8 takes reads new_reader).sent ≡ some v
      → is_initialize v ≡ true
  opens_with_initialize reads v h = (take_reads-Opened reads new_reader new_reader-Opened).opens v h
